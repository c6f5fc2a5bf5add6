-- ===== src/Usb/Files.antt =====
-- Which files the functions of LptToUsbAdapter/UsbLptLib/UsbWrappers.c that read from a hub open.
use lpt_to_usb_adapter.Base.{
  ℕ, ◌+◌, ◌*◌, ◌≡◌, Bool, true, false, Option, none, some, List, [], ◌∷◌, take, ◌==◌, arith,
  if◌then◌else◌, Bool-cases, inl, inr,
}
use lpt_to_usb_adapter.Usb.Api.{Api, Host, M}
use lpt_to_usb_adapter.Usb.Setup.{SetupApi, DeviceDescriptor}
use lpt_to_usb_adapter.Usb.Strings.{
  UsbString, get_string_descriptor, link, link_strings, get_string_descriptors, free_usb_string,
}
use lpt_to_usb_adapter.Usb.Hubs.{device_get_port_hub, get_usb_device_hub_handle}
use lpt_to_usb_adapter.Usb.Enumeration.{
  UsbDeviceInfo, gather_usb_device_info, interface_detail_alloc, strings_of, gather_strings,
  gather_connected, add_info,
}
use lpt_to_usb_adapter.Usb.Leaks.{Balanced}
use lpt_to_usb_adapter.Usb.Blocks.{count, get_string_descriptor-Balanced}

-- Between two states so many files more were opened than closed.
abbrev pub LeavesOpen : {W : Type 0} → ℕ → Host W → Host W → Type 0
LeavesOpen n before after = after.opened + before.closed ≡ before.opened + after.closed + n

free_usb_string-LeavesOpen :
    {W : Type 0} (strings : List UsbString) (s : Host W)
    → LeavesOpen 0 s (free_usb_string strings s).1
unfolding free_usb_string
free_usb_string-LeavesOpen [] s = omega arith
free_usb_string-LeavesOpen (str ∷ next) s =
    free_usb_string-LeavesOpen next (record s { freed = s.freed + 1 + 1 })

-- A function that opens and closes as many files.
abbrev pub KeepsFiles : {W A : Type 0} → M W A → Type 0
KeepsFiles {W} m = (s : Host W) → LeavesOpen 0 s (m s).1

KeepsFiles-if :
    {W A : Type 0} (b : Bool) (m n : M W A)
    → KeepsFiles m
    → KeepsFiles n
    → KeepsFiles (if b then m else n)
KeepsFiles-if true m n h k = h
KeepsFiles-if false m n h k = k

module _ {W : Type 0} (api : Api W) (setup : SetupApi W) where
  pub device_get_port_hub-Balanced :
      (device : ℕ) (s : Host W) → Balanced 0 0 0 s (device_get_port_hub api setup device s).1
  unfolding device_get_port_hub
  device_get_port_hub-Balanced device s = ground arith

  -- The handle of a hub is the only thing that its opening holds on to.
  pub get_usb_device_hub_handle-Balanced :
      (device : ℕ) (s : Host W)
      → let (r, s') = get_usb_device_hub_handle api setup device s in Balanced 0 (count r) 0 s s'
  unfolding get_usb_device_hub_handle
  get_usb_device_hub_handle-Balanced device s = ground arith

  pub interface_detail_alloc-Balanced :
      (device : ℕ) (s : Host W)
      → let (r, s') = interface_detail_alloc api setup device s in Balanced (count r) 0 0 s s'
  unfolding interface_detail_alloc
  interface_detail_alloc-Balanced device s = ground arith

  module _ (hub connection_index : ℕ) where
    link_strings-LeavesOpen :
        (descriptor_index : ℕ) (languages : List ℕ) (result : List UsbString) (s : Host W)
        → LeavesOpen 0 s
            (link_strings api setup hub connection_index descriptor_index languages result s).1
    unfolding link_strings
    link_strings-LeavesOpen descriptor_index [] result s = omega arith
    link_strings-LeavesOpen descriptor_index (language ∷ languages) result s =
        let (r, s₁) =
          get_string_descriptor api setup hub connection_index descriptor_index language s in
        omega (
          arith,
          get_string_descriptor-Balanced api setup hub connection_index descriptor_index language s,
          link_strings-LeavesOpen descriptor_index languages (link result r) s₁,
        )

    strings_of-KeepsFiles :
        (index : ℕ) (languages : List ℕ)
        → KeepsFiles (strings_of api setup hub connection_index index languages)
    unfolding get_string_descriptors
    strings_of-KeepsFiles index languages =
        KeepsFiles-if (index == 0) _ _ (λ s. omega arith)
          (link_strings-LeavesOpen index languages [])

    gather_strings-KeepsFiles :
        (d : DeviceDescriptor) (r : Option UsbString)
        → KeepsFiles (gather_strings api setup hub connection_index d r)
    gather_strings-KeepsFiles d none s = omega arith
    gather_strings-KeepsFiles d (some languages) s =
        let ids = take languages.length_chars languages.string in
        let strings = λ (index : ℕ). strings_of api setup hub connection_index index ids in
        let s₁ = (strings d.i_manufacturer s).1 in
        let s₂ = (strings d.i_serial_number s₁).1 in
        let s₃ = (strings d.i_product s₂).1 in
        omega (
          arith,
          strings_of-KeepsFiles d.i_manufacturer ids s,
          strings_of-KeepsFiles d.i_serial_number ids s₁,
          strings_of-KeepsFiles d.i_product ids s₂,
          free_usb_string-LeavesOpen (languages ∷ []) s₃,
        )

    gather_connected-KeepsFiles :
        (r : Option DeviceDescriptor)
        → KeepsFiles (gather_connected api setup hub connection_index r)
    gather_connected-KeepsFiles none s = omega arith
    gather_connected-KeepsFiles (some d) s =
        let (r, s₁) = get_string_descriptor api setup hub connection_index 0 0 s in
        omega (
          arith,
          get_string_descriptor-Balanced api setup hub connection_index 0 0 s,
          gather_strings-KeepsFiles d r s₁,
        )

    pub gather_usb_device_info-KeepsFiles :
        KeepsFiles (gather_usb_device_info api setup hub connection_index)
    unfolding gather_usb_device_info
    gather_usb_device_info-KeepsFiles s = elim (Bool-cases (api.malloc (35 + 11 * 30) s.world).0) [
      | inl got ↦ rw got (
          let (_, w) = api.malloc (35 + 11 * 30) s.world in
          let (d, w') = setup.get_node_connection_information hub connection_index w in
          omega (
            arith,
            gather_connected-KeepsFiles d (record s { world = w'; allocated = s.allocated + 1 }),
          ))
      | inr out ↦ rw out (omega arith)
    ]

  pub add_info-KeepsFiles :
      (devices : List UsbDeviceInfo) (path : List ℕ) (r : Option UsbDeviceInfo)
      → KeepsFiles (add_info api setup devices path r)
  add_info-KeepsFiles devices path none s = omega arith
  add_info-KeepsFiles devices path (some info) s = ground arith
