-- ===== src/Usb/HubPath.antt =====
-- The path of a hub that LptToUsbAdapter/UsbLptLib/UsbWrappers.c builds, in the buffer for it.
use lpt_to_usb_adapter.Base.{
  ℕ, ◌+◌, ◌≡◌, refl, true, some, List, [], ◌∷◌, ◌++◌, length, length-append, drop, ltb, arith,
}
use lpt_to_usb_adapter.Usb.Hubs.{
  Guid, guid_text, path_prefix, hash_all, device_id_to_device_path,
  device_id_to_device_path_buffer_length,
}
use lpt_to_usb_adapter.Usb.Parsing.{Lacks}

length-hash_all : (cs : List ℕ) → length (hash_all cs) ≡ length cs
length-hash_all [] = refl
length-hash_all (c ∷ cs) = omega (arith, length-hash_all cs)

hash_all-Lacks : (cs : List ℕ) → Lacks b'\\' (hash_all cs)
hash_all-Lacks [] = tt
hash_all-Lacks (c ∷ cs) = (λ e. ground (arith, e), hash_all-Lacks cs)

length-guid_text : (g : Guid) → length (guid_text g) ≡ 36
length-guid_text g = refl

-- Whatever the identifier and the GUID are, the buffer of the computed length is filled exactly:
-- the path and its zero character fit, and behind its prefix no backslash is left.
device_id_to_device_path-fits :
    (id : List ℕ) (guid : Guid)
    → let n = device_id_to_device_path_buffer_length id in
      (path : List ℕ) × (device_id_to_device_path id n guid ≡ some path)
      × (length path + 1 ≡ n)
      × Lacks b'\\' (drop 4 path)
unfolding device_id_to_device_path device_id_to_device_path_buffer_length
device_id_to_device_path-fits id guid =
    let rest = id ++ (b'#' ∷ b'{' ∷ (guid_text guid ++ b'}' ∷ [])) in
    let long : length rest ≡ length id + 39 =
      omega (arith, length-append id (b'#' ∷ b'{' ∷ (guid_text guid ++ b'}' ∷ []))) in
    let fits : ltb (length (path_prefix ++ rest)) (4 + length id + 1 + 38 + 1) ≡ true =
      ground arith in
    (
      path_prefix ++ hash_all rest,
      rw fits refl,
      omega (arith, length-hash_all rest),
      hash_all-Lacks rest,
    )
