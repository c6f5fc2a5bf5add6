-- ===== src/Usb/Handles.antt =====
-- The handles of hubs that the enumeration of LptToUsbAdapter/UsbLptLib/UsbWrappers.c opens.
use lpt_to_usb_adapter.Base.{
  ℕ, zero, suc, ◌+◌, ◌-◌, ◌≤◌, ◌<◌, ◌≡◌, refl, ap, Bool, true, false, Option, none, some, List, [],
  arith, if◌then◌else◌, Bool-cases, inl, inr,
}
use lpt_to_usb_adapter.Usb.Api.{Api, Host}
use lpt_to_usb_adapter.Usb.Setup.{SetupApi}
use lpt_to_usb_adapter.Usb.Hubs.{device_get_port_hub, get_usb_device_hub_handle}
use lpt_to_usb_adapter.Usb.Enumeration.{
  UsbDeviceInfo, gather_usb_device_info, interface_detail_alloc, gather, with_hub, at_hub, stored,
  with_port, visit, visit_all, create_usb_devices_info_list,
}
use lpt_to_usb_adapter.Usb.Blocks.{count}
use lpt_to_usb_adapter.Usb.Files.{
  LeavesOpen, device_get_port_hub-Balanced, get_usb_device_hub_handle-Balanced,
  interface_detail_alloc-Balanced, gather_usb_device_info-KeepsFiles, add_info-KeepsFiles,
}

passed :
    (stop more : Bool) (n device : ℕ)
    → device ≤ n
    → stop ≡ false
    → more ≡ true
    → (n ≡ device → stop ≡ more)
    → device + 1 ≤ n
passed stop more n device h e e' same = ground (arith, same)

module _ {W : Type 0} (api : Api W) (setup : SetupApi W) where
  -- The handle is closed where the path of the device was found.
  gather-closes :
      (hub port : ℕ) (devices : List UsbDeviceInfo) (r : Option (List ℕ)) (s : Host W)
      → let s' = (gather api setup hub port devices r s).1 in
        s'.opened + s.closed + count r ≡ s.opened + s'.closed
  gather-closes hub port devices none s = omega arith
  gather-closes hub port devices (some path) s =
      let (info, s₁) = gather_usb_device_info api setup hub port s in
      omega (
        arith,
        gather_usb_device_info-KeepsFiles api setup hub port s,
        add_info-KeepsFiles api setup devices path info s₁,
      )

  with_hub-closes :
      (device hub port : ℕ) (devices : List UsbDeviceInfo) (s : Host W)
      → let (found, w) = setup.enum_device_interfaces device s.world in
        let (path, _) = interface_detail_alloc api setup device (record s { world = w }) in
        let s' = (with_hub api setup device port devices hub s).1 in
        s'.opened + s.closed + (if found then count path else 0) ≡ s.opened + s'.closed
  with_hub-closes device hub port devices s =
      let (found, w) = setup.enum_device_interfaces device s.world in
      let s₁ = record s { world = w } in
      let (path, s₂) = interface_detail_alloc api setup device s₁ in
      elim (Bool-cases found) [
        | inl e ↦ rw e (
            omega (
              arith,
              interface_detail_alloc-Balanced api setup device s₁,
              gather-closes hub port devices path s₂,
            ))
        | inr e ↦ rw e (omega arith)
      ]

  -- How many handles of hubs the visit of a device leaves open: one if the hub was opened and then
  -- the device's interface or its path was not found.
  abbrev left_at_hub : ℕ → Option ℕ → Host W → ℕ
  left_at_hub device none s = 0
  left_at_hub device (some hub) s =
      let (found, w) = setup.enum_device_interfaces device s.world in
      let (path, _) = interface_detail_alloc api setup device (record s { world = w }) in
      if found then 1 - count path else 1

  abbrev left_with_port : ℕ → Option (Option ℕ × Option ℕ) → Host W → ℕ
  left_with_port device none s = 0
  left_with_port device (some _) s =
      let (hub, s') = get_usb_device_hub_handle api setup device s in left_at_hub device hub s'

  unfoldable pub left_open : ℕ → Host W → ℕ
  left_open device s =
      let (port_hub, s') = device_get_port_hub api setup device s in
      left_with_port device port_hub s'

  at_hub-left :
      (device port : ℕ) (devices : List UsbDeviceInfo) (hub : Option ℕ) (s : Host W)
      → let s' = (at_hub api setup device port devices hub s).1 in
        s'.opened + s.closed + count hub ≡ s.opened + s'.closed + left_at_hub device hub s
  at_hub-left device port devices none s = omega arith
  at_hub-left device port devices (some hub) s =
      ground (arith, with_hub-closes device hub port devices s)

  with_port-left :
      (device : ℕ) (devices : List UsbDeviceInfo) (r : Option (Option ℕ × Option ℕ)) (s : Host W)
      → LeavesOpen (left_with_port device r s) s (with_port api setup device devices r s).1
  with_port-left device devices none s = omega arith
  with_port-left device devices (some (port, _)) s =
      let (hub, s') = get_usb_device_hub_handle api setup device s in
      omega (
        arith,
        get_usb_device_hub_handle-Balanced api setup device s,
        at_hub-left device (stored api setup (api.stack_byte s.world) port) devices hub s',
      )

  visit-left_open :
      (device : ℕ) (devices : List UsbDeviceInfo) (s : Host W)
      → LeavesOpen (left_open device s) s (visit api setup device devices s).1
  unfolding left_open visit
  visit-left_open device devices s =
      let (r, s') = device_get_port_hub api setup device s in
      omega
        (arith, device_get_port_hub-Balanced api setup device s, with_port-left device devices r s')

  -- All the visits, along the states that they leave.
  unfoldable pub all_left_open : ℕ → ℕ → List UsbDeviceInfo → Host W → ℕ
  all_left_open zero device devices s = 0
  all_left_open (suc fuel) device devices s =
      let (more, w) = setup.enum_device_info device s.world in
      let s₁ = record s { world = w } in
      let (devices', s₂) = visit api setup device devices s₁ in
      let rest = all_left_open fuel (device + 1) devices' s₂ in
      if more then left_open device s₁ + rest else 0

  visit_all-left_open :
      (fuel device : ℕ) (devices : List UsbDeviceInfo) (s : Host W)
      → LeavesOpen
          (all_left_open fuel device devices s)
          s
          (visit_all api setup fuel device devices s).1
  unfolding visit_all all_left_open
  visit_all-left_open zero device devices s = omega arith
  visit_all-left_open (suc fuel) device devices s =
      let (more, w) = setup.enum_device_info device s.world in
      let s₁ = record s { world = w } in
      let (devices', s₂) = visit api setup device devices s₁ in
      ground (
        arith,
        visit-left_open device devices s₁,
        visit_all-left_open fuel (device + 1) devices' s₂,
      )

  visit_all-ends :
      (n fuel device : ℕ) (devices : List UsbDeviceInfo) (s : Host W)
      → ((w : W) → (setup.enum_device_info n w).0 ≡ false)
      → device ≤ n
      → n < fuel + device
      → count (visit_all api setup fuel device devices s).0 ≡ 1
  unfolding visit_all
  visit_all-ends n zero device devices s stops h enough = omega arith
  visit_all-ends n (suc fuel) device devices s stops h enough =
      let (more, w) = setup.enum_device_info device s.world in
      let s₁ = record s { world = w } in
      let (devices', s₂) = visit api setup device devices s₁ in
      elim (Bool-cases more) [
        | inl e ↦ rw e (
            visit_all-ends n fuel (device + 1) devices' s₂ stops
              (passed (setup.enum_device_info n s.world).0 more n device h (stops s.world) e
                (λ same. ap (λ k. (setup.enum_device_info k s.world).0) same))
              (omega arith))
        | inr e ↦ rw e refl
      ]

  -- Where the system lists fewer devices than the fuel, the enumeration ends, with a list if the
  -- system gave one. It leaves open exactly one handle for each device whose hub was opened and
  -- whose interface or path was then not found; all others are closed.
  pub create_usb_devices_info_list-left_open :
      (n fuel : ℕ) (s : Host W)
      → ((w : W) → (setup.enum_device_info n w).0 ≡ false)
      → n < fuel
      → let (opened, w) = setup.get_class_devs s.world in
        let (r, s') = create_usb_devices_info_list api setup fuel s in
        (count r ≡ (if opened then 1 else 0))
        × LeavesOpen (if opened then all_left_open fuel 0 [] (record s { world = w }) else 0) s s'
  unfolding create_usb_devices_info_list
  create_usb_devices_info_list-left_open n fuel s stops enough =
      let (opened, w) = setup.get_class_devs s.world in
      let s₁ = record s { world = w } in
      ground (
        arith,
        visit_all-left_open fuel 0 [] s₁,
        visit_all-ends n fuel 0 [] s₁ stops (omega arith) (omega arith),
      )
