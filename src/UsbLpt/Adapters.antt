-- ===== src/UsbLpt/Adapters.antt =====
-- What `UsbLpt_GetListInternal` of LptToUsbAdapter/UsbLptLib/UsbLptLib.c lists.
use mathlib.Core.Path.{subst}
use mathlib.Core.List.{append_assoc, append-nil}
use lpt_to_usb_adapter.Base.{
  zero, suc, ◌+◌, drop, ℕ, ◌≤◌, ◌≡◌, refl, sym, ap, ◌∙◌, ◌⊎◌, inl, inr, Bool, true, false, Option,
  none, some, List, [], ◌∷◌, ◌++◌, length, length-append, arith, ltb, Bool-cases,
}
use lpt_to_usb_adapter.Usb.Api.{Api, Host}
use lpt_to_usb_adapter.Usb.Setup.{SetupApi}
use lpt_to_usb_adapter.Usb.Blocks.{count}
use lpt_to_usb_adapter.Usb.Enumeration.{UsbDeviceInfo, create_usb_devices_info_list}
use lpt_to_usb_adapter.UsbLpt.Commands.{UsbLpt, open_device}
use lpt_to_usb_adapter.Usb.Strings.{UsbString}
use lpt_to_usb_adapter.UsbLpt.Identity.{
  wide_string-Holds, copy_text-IsCut, is_adapter-running, is_adapter-updating, other-neither,
}
use lpt_to_usb_adapter.UsbLpt.Picking.{Opens, Located, Numbered, IsListed, IsPassed, Picks}
use lpt_to_usb_adapter.UsbLpt.Loading.{IsLoadable, update-count}
use lpt_to_usb_adapter.UsbLpt.Listing.{
  UsbLptDevice, Listing, Image, is_adapter, is_dfu, copy_text, wide_string, serial_of, fill, update,
  update_done, use_device, open_adapter, round, rounds, get_list_internal,
}

-- Every enumerated device has its path.
abbrev pub HavePaths : List UsbDeviceInfo → Type 0
HavePaths [] = Unit {0}
HavePaths (info ∷ infos) = (count info.device_identifier ≡ 1) × HavePaths infos

serial-Numbered : (chain : List UsbString) (old : List ℕ) → Numbered chain (serial_of chain old)
unfolding Numbered
serial-Numbered [] old = inl (refl, (drop 1 old, refl))
serial-Numbered (str ∷ next) old = inr (str, next, refl, copy_text-IsCut str.string)

module _ {W : Type 0} (api : Api W) (setup : SetupApi W) (image : Image)
    (loads : IsLoadable image) where
  -- What one round adds: nothing, or one device.
  abbrev Grows : UsbDeviceInfo → Listing → Listing → Type 0
  Grows info l l' =
      ((l'.devices ≡ l.devices) × IsPassed api info)
      ⊎ ((device : UsbLptDevice) × (l'.devices ≡ l.devices ++ device ∷ [])
          × IsListed api info device)

  abbrev Adds : UsbDeviceInfo → Listing → Option Listing → Type 0
  Adds info l r = (l' : Listing) × (r ≡ some l') × Grows info l l'

  update_done-keeps :
      (l : Listing) (temp : UsbLpt) (r : Option Bool) (s : Host W)
      → count r ≡ 1
      → (l' : Listing) × ((update_done api setup image l temp r s).0 ≡ some l')
        × (l'.devices ≡ l.devices)
  update_done-keeps l temp none s has = absurd (omega (arith, has))
  update_done-keeps l temp (some done) s has = (_, refl, refl)

  use_device-Adds :
      (info : UsbDeviceInfo) (l : Listing) (identifier : List ℕ) (r : Option UsbLpt) (s : Host W)
      → is_adapter info ≡ true
      → info.device_identifier ≡ some identifier
      → Opens api (copy_text identifier) r
      → Adds info l
          (use_device api setup image info
            (record l { device_this = fill info identifier l.device_this })
            r
            s).0
  unfolding Located IsPassed IsListed
  use_device-Adds info l identifier none s adapter path opens =
      let located : Located info (copy_text identifier) =
        (identifier, path, copy_text-IsCut identifier) in
      (_, refl, inl (refl, inr (inr (copy_text identifier, located, opens))))
  use_device-Adds info l identifier (some temp) s adapter path opens =
      let this = record (fill info identifier l.device_this) { version = temp.version } in
      let l' = record l { device_this = this } in
      let (done, s') = update api setup image temp s in
      elim (Bool-cases (is_dfu info)) [
        | inl dfu ↦
            let (l'', e, kept) =
              update_done-keeps l' temp done s' (update-count api setup image temp s loads) in
            (l'', rw dfu e, inl (kept, inr (inl (is_adapter-updating info adapter dfu))))
        | inr plain ↦ (
          record l' { devices = l.devices ++ this ∷ [] },
          rw plain refl,
          inr (
            this,
            refl,
            (
              is_adapter-running info adapter plain,
              (identifier, path, copy_text-IsCut identifier),
              serial-Numbered info.serial l.device_this.serial,
              (temp, refl, opens),
            ),
          ),
        )
      ]

  open_adapter-Adds :
      (info : UsbDeviceInfo) (l : Listing) (path : Option (List ℕ)) (s : Host W)
      → is_adapter info ≡ true
      → info.device_identifier ≡ path
      → count path ≡ 1
      → Adds info l (open_adapter api setup image info l path s).0
  unfolding Opens
  open_adapter-Adds info l none s adapter known has = absurd (omega (arith, has))
  open_adapter-Adds info l (some identifier) s adapter known has =
      let location = copy_text identifier in
      let (r, s') = open_device api (wide_string location) s in
      use_device-Adds info l identifier r s' adapter known
        (wide_string location, s, wide_string-Holds location, refl)

  round-Adds :
      (info : UsbDeviceInfo) (l : Listing) (s : Host W)
      → count info.device_identifier ≡ 1
      → Adds info l (round api setup image info l s).0
  unfolding IsPassed
  round-Adds info l s has = elim (Bool-cases (is_adapter info)) [
    | inl adapter ↦
        let (l', e, adds) = open_adapter-Adds info l info.device_identifier s adapter refl has in
        (l', rw adapter e, adds)
    | inr other ↦ (l, rw other refl, inl (refl, inl (other-neither info other)))
  ]

  -- What the loop leaves.
  abbrev AddsAll : ℕ → List UsbDeviceInfo → Listing → Option Listing → Type 0
  AddsAll room infos l r =
      (l' : Listing) × (new : List UsbLptDevice) × (r ≡ some l')
      × (l'.devices ≡ l.devices ++ new)
      × Picks api room infos new

  -- The room that a round leaves.
  room_after : (info : UsbDeviceInfo) (l l' : Listing) (room : ℕ) → Grows info l l' → ℕ
  room_after info l l' room (inl passed) = suc room
  room_after info l l' room (inr listed) = room

  AddsAll-round :
      (room : ℕ) (info : UsbDeviceInfo) (infos : List UsbDeviceInfo) (l l' : Listing)
      (r : Option Listing) (grows : Grows info l l')
      → AddsAll (room_after info l l' room grows) infos l' r
      → AddsAll (suc room) (info ∷ infos) l r
  unfolding Picks room_after
  AddsAll-round room info infos l l' r (inl (same, passed)) (l'', new, e, all, picks) =
      (l'', new, e, all ∙ ap (λ ds. ds ++ new) same, inl (passed, picks))
  AddsAll-round room info infos l l' r (inr (device, more, listed)) (l'', new, e, all, picks) = (
    l'',
    device ∷ new,
    e,
    all ∙ (ap (λ ds. ds ++ new) more ∙ append_assoc l.devices (device ∷ []) new),
    inr (device, new, refl, listed, picks),
  )

  room_after-fits :
      (devices_max room : ℕ) (info : UsbDeviceInfo) (l l' : Listing) (grows : Grows info l l')
      → length l.devices + suc room ≡ devices_max
      → length l'.devices + room_after info l l' room grows ≡ devices_max
  unfolding room_after
  room_after-fits devices_max room info l l' (inl (same, passed)) fits = rw same fits
  room_after-fits devices_max room info l l' (inr (device, more, listed)) fits =
      rw more (omega (arith, fits, length-append l.devices (device ∷ [])))

  rounds-AddsAll :
      (devices_max room : ℕ) (infos : List UsbDeviceInfo) (l : Listing) (s : Host W)
      → length l.devices + room ≡ devices_max
      → HavePaths infos
      → AddsAll room infos l (rounds api setup image devices_max infos l s).0
  unfolding rounds Picks
  rounds-AddsAll devices_max zero [] l s fits paths =
      (l, [], refl, sym (append-nil l.devices), refl)
  rounds-AddsAll devices_max (suc room) [] l s fits paths =
      (l, [], refl, sym (append-nil l.devices), refl)
  rounds-AddsAll devices_max zero (info ∷ infos) l s fits paths =
      let full : ltb (length l.devices) devices_max ≡ false = ground (arith, fits) in
      rw full (l, [], refl, sym (append-nil l.devices), refl)
  rounds-AddsAll devices_max (suc room) (info ∷ infos) l s fits (path, paths) =
      let free : ltb (length l.devices) devices_max ≡ true = ground (arith, fits) in
      let s' = (round api setup image info l s).1 in
      let (l', e, grows) = round-Adds info l s path in
      let fits' = room_after-fits devices_max room info l l' grows fits in
      let left = room_after info l l' room grows in
      rw (free, e)
        (AddsAll-round room info infos l l' _ grows
          (rounds-AddsAll devices_max left infos l' s' fits' paths))

  Picks-length :
      (room : ℕ) (infos : List UsbDeviceInfo) (devices : List UsbLptDevice)
      → Picks api room infos devices
      → length devices ≤ room
  unfolding Picks
  Picks-length zero infos devices none_left = rw none_left (omega arith)
  Picks-length (suc room) [] devices none_left = rw none_left (omega arith)
  Picks-length (suc room) (info ∷ infos) devices (inl (passed, picks)) =
      Picks-length (suc room) infos devices picks
  Picks-length (suc room) (info ∷ infos) devices (inr (device, rest, e, listed, picks)) =
      rw e (omega (arith, Picks-length room infos rest picks))

  -- Where the image loads, and the enumeration gives a list in which every device has its path, the
  -- listing returns at most as many devices as asked for. In the order of the enumeration each
  -- stands for a different device with the identifiers 1209:4153, the manufacturer "a.sakharov" and
  -- the name "Virtual EPP"; it has the path and the serial number of that device in buffers of 128
  -- characters, cut where they are longer, and the version that the device told when it was opened.
  -- Until there is no room, no device is left out but one that is no such device, one that has
  -- the name "Virtual EPP DFU" of the boot loader instead, and one that could not be opened.
  pub get_list_internal-Picks :
      (fuel devices_max : ℕ) (this : UsbLptDevice) (infos : List UsbDeviceInfo) (s : Host W)
      → (create_usb_devices_info_list api setup fuel s).0 ≡ some infos
      → HavePaths infos
      → (l : Listing) × ((get_list_internal api setup image fuel devices_max this s).0 ≡ some l)
        × (length l.devices ≤ devices_max)
        × Picks api devices_max infos l.devices
  unfolding get_list_internal
  get_list_internal-Picks fuel devices_max this infos s listed paths =
      let s' = (create_usb_devices_info_list api setup fuel s).1 in
      let empty : Listing = record { device_this = this; devices = []; dfu_happens = false } in
      let (l, new, e, all, picks) =
        rounds-AddsAll devices_max devices_max infos empty s' (omega arith) paths in
      let picked = subst (Picks api devices_max infos) (sym all) picks in
      (l, rw (listed, e) refl, Picks-length devices_max infos l.devices picked, picked)
