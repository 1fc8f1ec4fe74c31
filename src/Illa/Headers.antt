-- ===== src/Illa/Headers.antt =====
-- Reading the headers of image files from a `FileReader`: a step returns a value and moves the reader,
-- refuses the file (the codec returns false), or raises.
pub mod Pcx
pub mod Bmp
pub mod Tga
use pictus.Base.{
  ℕ, zero, suc, ◌+◌, ◌-◌, ◌*◌, ◌%◌, ◌^◌, Bool, true, false, not, List, [], ◌∷◌, ltb, if◌then◌else◌,
  length,
}
use pictus.Base.Int.{ℤ, pos, negsuc}
use pictus.Orz.FileReader
use pictus.Orz.FileReader.{
  StreamMemory, SeekMethod, current, begin, bytes, seek, read_full, little_endian,
}

pub data Failure : Type 0 where
  io : FileReader.Error → Failure
  invalid_header codec_error invalid_param bad_alloc no_fuel : Failure

pub data Outcome {ℓ} (A : Type ℓ) : Type ℓ where
  done : A → Outcome A
  refused : Outcome A
  raised : Failure → Outcome A

abbrev pub M : Type 0 → Type 0
M A = StreamMemory → Outcome (A × StreamMemory)

infixl 5 ◌>>=◌ ◌>>◌
abbrev pub ◌>>=◌ : {A B : Type 0} → M A → (A → M B) → M B
◌>>=◌ m f s = elim (m s) [ done (a, t) ↦ f a t | refused ↦ refused | raised e ↦ raised e ]

abbrev pub ◌>>◌ : {B : Type 0} → M (Unit {0}) → M B → M B
m >> k = m >>= λ _. k

abbrev pub return : {A : Type 0} → A → M A
return a s = done (a, s)

abbrev pub raise : {A : Type 0} → Failure → M A
raise e s = raised e

-- `if (!b) return false;`
abbrev pub check : Bool → M (Unit {0})
check true s = done (tt, s)
check false s = refused

-- `if (!b) throw e;`
abbrev pub demand : Bool → Failure → M (Unit {0})
demand true e s = done (tt, s)
demand false e s = raised e

abbrev pub lift_read : FileReader.Result (List ℕ × StreamMemory) → Outcome (List ℕ × StreamMemory)
lift_read (FileReader.ok r) = done r
lift_read (FileReader.err e) = raised (io e)

abbrev pub lift_seek : FileReader.Result StreamMemory → Outcome (Unit {0} × StreamMemory)
lift_seek (FileReader.ok r) = done (tt, r)
lift_seek (FileReader.err e) = raised (io e)

-- ReadFull of `n` bytes into a buffer.
unfoldable pub read_buffer : ℕ → M (List ℕ)
unfolding read_full
read_buffer n s = lift_read (read_full n s)

-- ReadFull into a number of `n` bytes, on a machine that stores the lowest byte first.
unfoldable pub read_number : ℕ → M ℕ
unfolding read_buffer little_endian
read_number n = do bs ← read_buffer n; return (little_endian bs)

-- Two's complement of `w` bits.
abbrev pub to_signed : ℕ → ℕ → ℤ
to_signed w n = if ltb n (2 ^ (w - 1)) then pos n else negsuc (2 ^ w - n - 1)

unfoldable pub skip : ℕ → M (Unit {0})
unfolding seek
skip n s = lift_seek (seek current (pos n) s)

unfoldable pub go_to : ℤ → M (Unit {0})
unfolding seek
go_to p s = lift_seek (seek begin p s)

abbrev pub position : M ℤ
position s = done (s.position, s)

abbrev pub file_size : M ℕ
file_size s = done (length (bytes s), s)

-- A colour of a palette: its alpha, red, green and blue.
pub record Color : Type 0 where
  pub alpha : ℕ
  pub red : ℕ
  pub green : ℕ
  pub blue : ℕ

abbrev byte_at : List ℕ → ℕ → ℕ
byte_at [] i = 0
byte_at (b ∷ bs) zero = b
byte_at (b ∷ bs) (suc i) = byte_at bs i

unfoldable pub load_rgb : M Color
unfolding read_buffer
load_rgb = do
  chans ← read_buffer 3
  return (record {
    alpha = 255;
    red = byte_at chans 0;
    green = byte_at chans 1;
    blue = byte_at chans 2;
  })

unfoldable pub load_bgr : M Color
unfolding read_buffer
load_bgr = do
  chans ← read_buffer 3
  return (record {
    alpha = 255;
    red = byte_at chans 2;
    green = byte_at chans 1;
    blue = byte_at chans 0;
  })

unfoldable pub load_bgra : M Color
unfolding read_buffer
load_bgra = do
  chans ← read_buffer 4
  return (record {
    alpha = byte_at chans 3;
    red = byte_at chans 2;
    green = byte_at chans 1;
    blue = byte_at chans 0;
  })

unfoldable pub load_bgrx : M Color
unfolding read_buffer
load_bgrx = do
  chans ← read_buffer 4
  return (record {
    alpha = 255;
    red = byte_at chans 2;
    green = byte_at chans 1;
    blue = byte_at chans 0;
  })

-- The entries that `LoadPalette` sets, each with its index.
unfoldable pub load_entries : ℕ → ℕ → M Color → M (List (ℕ × Color))
load_entries index zero func = return []
load_entries index (suc num_entries) func = do
  color ← func
  rest ← load_entries (index + 1) num_entries func
  return ((index, color) ∷ rest)

unfoldable pub load_palette : ℕ → ℕ → M Color → M (List (ℕ × Color))
unfolding load_entries
load_palette first_entry num_entries func = do
  demand (not (ltb 256 ((first_entry + num_entries) % 2 ^ 32))) invalid_param
  load_entries first_entry num_entries func
