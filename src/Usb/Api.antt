-- ===== src/Usb/Api.antt =====
-- What LptToUsbAdapter/UsbLptLib calls and does not implement (the C library, the Win32 and the
-- WinUSB calls), the host's state around these calls, and the monad of the library's functions.
use lpt_to_usb_adapter.Base.{ℕ, ◌+◌, Bool, false, Option, none, some, List, if◌then◌else◌}
use lpt_to_usb_adapter.Device.{SetupPacket}

-- The calls, over a world that they may read and change. A transfer in gives the bytes that
-- arrived, a transfer out how many bytes went; `none` is a return of FALSE or of an invalid handle.
pub record Api (W : Type 0) : Type 0 where
  pub malloc : ℕ → W → Bool × W
  -- What memory holds before it is written.
  pub heap_flag : W → Bool
  pub stack_byte : W → ℕ
  pub create_file : List ℕ → W → Option ℕ × W
  pub winusb_initialize : ℕ → W → Option ℕ × W
  pub winusb_free : ℕ → W → W
  pub close_handle : ℕ → W → W
  pub control_out : ℕ → SetupPacket → List ℕ → W → Option ℕ × W
  pub control_in : ℕ → SetupPacket → ℕ → W → Option (List ℕ) × W
  pub write_pipe : ℕ → ℕ → List ℕ → W → Option ℕ × W
  pub read_pipe : ℕ → ℕ → ℕ → W → Option (List ℕ) × W

-- The world, and how often each kind of resource was taken and given back.
pub record Host (W : Type 0) : Type 0 where
  pub world : W
  pub allocated : ℕ
  pub freed : ℕ
  pub opened : ℕ
  pub closed : ℕ
  pub initialized : ℕ
  pub released : ℕ

abbrev pub M : Type 0 → Type 0 → Type 0
M W A = Host W → A × Host W

module _ {W : Type 0} where
  abbrev pub pure : {A : Type 0} → A → M W A
  pure a s = (a, s)

  infixl 5 ◌>>=◌ ◌>>◌
  abbrev pub ◌>>=◌ : {A B : Type 0} → M W A → (A → M W B) → M W B
  ◌>>=◌ m f s = let (a, s') = m s in f a s'

  abbrev pub ◌>>◌ : {B : Type 0} → M W (Unit {0}) → M W B → M W B
  m >> k = m >>= λ _. k

  -- A call that only moves the world.
  abbrev pub call : {A : Type 0} → (W → A × W) → M W A
  call f s = let (a, w) = f s.world in (a, record s { world = w })

  abbrev pub peek : {A : Type 0} → (W → A) → M W A
  peek f s = (f s.world, s)

  -- `free(p)` of a block that was allocated.
  abbrev pub free : M W (Unit {0})
  free s = (tt, record s { freed = s.freed + 1 })

  -- `if (!m) return none; k`
  abbrev pub unless_none : {A B : Type 0} → M W (Option A) → (A → M W (Option B)) → M W (Option B)
  unless_none m k s = let (r, s') = m s in elim r [ none ↦ (none, s') | some a ↦ k a s' ]

  -- `if (!m) return false; k`
  abbrev pub and_then : M W Bool → M W Bool → M W Bool
  and_then m k s = let (r, s') = m s in if r then k s' else (false, s')

  -- `malloc(n)`, counted when it gives a block.
  abbrev pub alloc : Api W → ℕ → M W Bool
  alloc api n s =
      let (got, w) = api.malloc n s.world in
      (got, record s { world = w; allocated = if got then s.allocated + 1 else s.allocated })
