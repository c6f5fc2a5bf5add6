-- ===== src/Injectee/Detaching.antt =====
-- What `DllMain` of LptToUsbAdapter/LptPatchInjectee/LptPatchInjectee.c redirects.
use lpt_to_usb_adapter.Base.{
  ℕ, Option, none, some, map, ◌≡◌, ◌∙◌, List, [], ◌∷◌, ◌++◌, ◌==◌, arith, if◌then◌else◌,
}
use lpt_to_usb_adapter.Injectee.Attach.{
  Hook, Detours, InjecteeSettings, create_file_hook, device_io_control_hook, reg_open_key_hook,
  reg_enum_value_hook, reg_query_value_hook, process_attach, process_detach, on_reason,
}

-- A list without the first occurrence of a hook.
abbrev pub index : Hook → ℕ
index create_file_hook = 0
index device_io_control_hook = 1
index reg_open_key_hook = 2
index reg_enum_value_hook = 3
index reg_query_value_hook = 4

abbrev pub remove : Hook → List Hook → List Hook
remove hook [] = []
remove hook (h ∷ hooks) =
    let rest = remove hook hooks in if index h == index hook then hooks else h ∷ rest

-- The hooks that the settings choose, the last one first.
abbrev pub chosen_hooks : InjecteeSettings → List Hook
chosen_hooks settings =
    (if settings.emulate_lpt_in_registry
      then reg_query_value_hook ∷ reg_enum_value_hook ∷ reg_open_key_hook ∷ []
      else [])
    ++ (if settings.patch_winio_load then device_io_control_hook ∷ create_file_hook ∷ [] else [])

-- What is noted in a transaction, to be done when it is committed.
pub data Change : Type 0 where
  redirect : Hook → Change
  give_back : Hook → Change

-- The redirections after the noted changes, in their order.
abbrev pub apply : List Change → List Hook → List Hook
apply [] hooks = hooks
apply (redirect hook ∷ changes) hooks = apply changes (hook ∷ hooks)
apply (give_back hook ∷ changes) hooks = apply changes (remove hook hooks)

-- A transaction is opened unless one is open.
abbrev pub opened : Option (List Change) → Option (List Change)
opened none = some []
opened (some changes) = some changes

-- Outside of a transaction the calls fail, and note nothing.
abbrev pub noted : Change → Option (List Change) → Option (List Change)
noted change none = none
noted change (some changes) = some (changes ++ change ∷ [])

abbrev pub settled : Option (List Change) → List Hook → List Hook
settled none hooks = hooks
settled (some changes) hooks = apply changes hooks

-- A system with these redirections, and with this transaction if one is open.
abbrev pub Stands :
    {W : Type 0}
    → (W → List Hook)
    → (W → Option (List Change))
    → W
    → List Hook
    → Option (List Change)
    → Type 0
Stands attached pending w hooks changes = (attached w ≡ hooks) × (pending w ≡ changes)

-- A transaction that is begun collects what is attached and detached, which outside of one does
-- nothing; redirections change when it is committed.
pub record IsTransactional {W : Type 0} (detours : Detours W) (attached : W → List Hook)
    (pending : W → Option (List Change)) : Type 0 where
  pub restored :
      (w : W) → Stands attached pending (detours.restore_after_with w) (attached w) (pending w)
  pub begun : (w : W) → Stands attached pending (detours.begin w) (attached w) (opened (pending w))
  pub added :
      (hook : Hook) (w : W)
      → Stands attached pending
          (detours.attach hook w)
          (attached w)
          (noted (redirect hook) (pending w))
  pub removed :
      (hook : Hook) (w : W)
      → Stands attached pending
          (detours.detach hook w)
          (attached w)
          (noted (give_back hook) (pending w))
  pub committed :
      (w : W) → Stands attached pending (detours.commit w) (settled (pending w) (attached w)) none

-- The hooks that the settings choose, in the order of the calls.
abbrev called_hooks : InjecteeSettings → List Hook
called_hooks settings =
    (if settings.patch_winio_load then create_file_hook ∷ device_io_control_hook ∷ [] else [])
    ++ (if settings.emulate_lpt_in_registry
        then reg_open_key_hook ∷ reg_enum_value_hook ∷ reg_query_value_hook ∷ []
        else [])

apply-redirect :
    (settings : InjecteeSettings) (hooks : List Hook)
    → apply (map redirect (called_hooks settings)) hooks ≡ chosen_hooks settings ++ hooks
apply-redirect settings hooks = ground arith

apply-give_back :
    (settings : InjecteeSettings) (hooks : List Hook)
    → apply (map give_back (called_hooks settings)) (chosen_hooks settings ++ hooks) ≡ hooks
apply-give_back settings hooks = ground arith

module _ {W : Type 0} (detours : Detours W) (attached : W → List Hook)
    (pending : W → Option (List Change)) (h : IsTransactional detours attached pending) where
  on_reason-attach :
      (settings : InjecteeSettings) (w : W)
      → pending w ≡ none
      → Stands attached pending
          (on_reason detours settings process_attach w)
          (chosen_hooks settings ++ attached w)
          none
  unfolding on_reason
  on_reason-attach settings w idle = grind (arith, idle, h.restored, h.begun, h.added, h.committed)

  on_reason-detach :
      (settings : InjecteeSettings) (w : W) (before : List Hook)
      → attached w ≡ chosen_hooks settings ++ before
      → pending w ≡ none
      → Stands attached pending (on_reason detours settings process_detach w) before none
  unfolding on_reason
  on_reason-detach settings w before e idle =
      grind (arith, e, idle, h.begun, h.removed, h.committed)

  -- Over a system in which a transaction collects what is attached and detached, does it when it is
  -- committed, and nothing is done outside of one: when no transaction is open, the library that is
  -- attached to a process redirects just the functions that its settings choose; and when it is
  -- detached, with its redirections as it left them and no transaction open, those of before are
  -- left. Neither leaves a transaction open.
  pub on_reason-on_reason :
      (settings : InjecteeSettings) (w w' : W)
      → pending w ≡ none
      → attached w' ≡ attached (on_reason detours settings process_attach w)
      → pending w' ≡ none
      → (attached w' ≡ chosen_hooks settings ++ attached w)
        × (pending (on_reason detours settings process_attach w) ≡ none)
        × (attached (on_reason detours settings process_detach w') ≡ attached w)
        × (pending (on_reason detours settings process_detach w') ≡ none)
  on_reason-on_reason settings w w' idle between closed =
      let (redirected, done) = on_reason-attach settings w idle in
      let all = between ∙ redirected in
      let (back, ended) = on_reason-detach settings w' (attached w) all closed in
      (all, done, back, ended)
