-- ===== src/Injector/Encoding.antt =====
-- The port instructions of the processor, for `DecodeIoInstruction` of
-- LptToUsbAdapter/LptPatchInjector/LptPatchInjector.c.
use lpt_to_usb_adapter.Base.{
  ℕ, ◌+◌, ◌≡◌, refl, Bool, true, false, some, List, [], ◌∷◌, ◌++◌, length, u16, if◌then◌else◌,
}
use lpt_to_usb_adapter.Injector.Decode.{IoInstruction, decode_io_instruction}

-- How wide the access is.
pub data Width : Type 0 where
  byte word dword : Width

-- Where the port number stands: in the instruction, or in DX.
pub data Operand : Type 0 where
  immediate : ℕ → Operand
  dx : Operand

pub record Access : Type 0 where
  pub width : Width
  pub operand : Operand
  pub out : Bool

-- An access of 8 bits.
abbrev pub byte_access : Operand → Bool → Access
byte_access o d = record { width = byte; operand = o; out = d }

abbrev prefix : Width → List ℕ
prefix byte = []
prefix word = 0x66 ∷ []
prefix dword = []

-- The opcode 1110 d1ow: DX, then out, then wide.
abbrev wide : Width → ℕ
wide byte = 0
wide word = 1
wide dword = 1

abbrev with_operand : ℕ → Operand → List ℕ
with_operand opcode (immediate n) = opcode ∷ n ∷ []
with_operand opcode dx = (opcode + 8) ∷ []

abbrev pub encode : Access → List ℕ
encode a = prefix a.width ++ with_operand (0xe4 + (if a.out then 2 else 0) + wide a.width) a.operand

abbrev pub bits : Width → ℕ
bits byte = 8
bits word = 16
bits dword = 32

abbrev pub port_of : Operand → ℕ → ℕ
port_of (immediate n) edx = n
port_of dx edx = u16 edx

-- What the instruction means.
abbrev pub meaning : Access → ℕ → IoInstruction
meaning a edx = record {
  port = port_of a.operand edx;
  io_size = bits a.width;
  out_direction = a.out;
  instruction_size = length (encode a);
}

decode_encode :
    (w : Width) (o : Operand) (d : Bool) (edx : ℕ) (rest : List ℕ)
    → let a : Access = record { width = w; operand = o; out = d } in
      decode_io_instruction (encode a ++ rest) edx ≡ some (meaning a edx)
unfolding decode_io_instruction
decode_encode byte dx true edx rest = refl
decode_encode byte dx false edx rest = refl
decode_encode byte (immediate n) true edx rest = refl
decode_encode byte (immediate n) false edx rest = refl
decode_encode word dx true edx rest = refl
decode_encode word dx false edx rest = refl
decode_encode word (immediate n) true edx rest = refl
decode_encode word (immediate n) false edx rest = refl
decode_encode dword dx true edx rest = refl
decode_encode dword dx false edx rest = refl
decode_encode dword (immediate n) true edx rest = refl
decode_encode dword (immediate n) false edx rest = refl

-- Every port instruction, of either direction, any width and either operand, and whatever follows
-- it, is decoded to its port, width, direction and length.
pub decode_io_instruction-encode :
    (a : Access) (edx : ℕ) (rest : List ℕ)
    → decode_io_instruction (encode a ++ rest) edx ≡ some (meaning a edx)
decode_io_instruction-encode a edx rest = decode_encode a.width a.operand a.out edx rest
