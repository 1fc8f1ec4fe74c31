-- ===== src/Illa/Headers/Bmp/Shift.antt =====
-- `calcShift`, and the decoders for the headers that are accepted.
use Prim.Native.Nat.{bit_and}
use native.Mathlib.Nat.{pow-suc}
use pictus.Base.{
  ℕ, zero, suc, ◌+◌, ◌*◌, ◌/◌, ◌%◌, ◌^◌, ◌<◌, ◌≡◌, ◌≢◌, ap, ◌∙◌, arith, ◌==◌, ◌||◌, true,
  Bool-cases, inl, inr, none, ne→==_not,
}
use pictus.Base.Bits.{bit_and-mask}
use pictus.Orz.FileReader.{StreamMemory}
use pictus.Illa.Headers.{done}
use pictus.Illa.Headers.Bmp.{calc_shift, shift_loop, allowed, choose_decoder}

-- The shift takes away the zero bits at the low end, and no more.
abbrev pub IsShift : ℕ → ℕ → Type 0
IsShift mask shift = (q : ℕ) × (mask ≡ 2 ^ shift * q) × (q % 2 ≡ 1)

low_bit : (m : ℕ) → bit_and m 1 ≡ m % 2
low_bit m = bit_and-mask 1 m

doubled : (m j q : ℕ) → m % 2 ≡ 0 → m / 2 ≡ 2 ^ j * q → m ≡ 2 ^ suc j * q
doubled m j q even half = omega (arith, half, ap (λ (p : ℕ). p * q) (pow-suc 2 j))

shift_loop-IsShift :
    (fuel m k : ℕ) (s : StreamMemory)
    → m ≢ 0
    → m < 2 ^ fuel
    → (j : ℕ) × (shift_loop (suc fuel) m k s ≡ done (k + j, s)) × (j < fuel) × IsShift m j
unfolding shift_loop
shift_loop-IsShift zero m k s nz h = absurd (nz (omega arith))
shift_loop-IsShift (suc fuel) m k s nz h = elim (Bool-cases (bit_and m 1 == 0)) [
  | inl even ↦
      let bit : m % 2 ≡ 0 = ground (arith, low_bit m) in
      let (j, runs, small, (q, e, odd)) =
        shift_loop-IsShift fuel (m / 2) (k + 1) s (λ z. nz (omega arith))
          (omega (arith, pow-suc 2 fuel)) in
      (
        suc j,
        rw (even, shift_loop) (runs ∙ ap (λ (n : ℕ). done (n, s)) (omega arith)),
        omega arith,
        (q, doubled m j q bit e, odd),
      )
  | inr odd ↦ (
    0,
    rw (odd, shift_loop) (ap (λ (n : ℕ). done (n, s)) (omega arith)),
    omega arith,
    (m, omega arith, ground (arith, low_bit m)),
  )
]

-- calcShift ends for every mask of 32 bits that is not 0: its result is the number of zero bits at
-- the low end, which is less than 32, and the reader stays where it is.
pub calc_shift-IsShift :
    (mask : ℕ) (s : StreamMemory)
    → mask ≢ 0
    → mask < 2 ^ 32
    → (shift : ℕ) × (calc_shift mask s ≡ done (shift, s)) × (shift < 32) × IsShift mask shift
unfolding calc_shift
calc_shift-IsShift mask s nz h =
    let (j, runs, small, q) = shift_loop-IsShift 32 mask 0 s nz h in
    (j, rw (ne→==_not mask 0 nz) (runs ∙ ap (λ (n : ℕ). done (n, s)) (omega arith)), small, q)

-- A compression that a header may have with its depth has a decoder, for every depth that has a
-- surface format.
pub choose_decoder-allowed :
    (compression depth : ℕ)
    → allowed depth compression ≡ true
    → (depth == 1 || depth == 4 || depth == 8 || depth == 16 || depth == 24 || depth == 32) ≡ true
    → choose_decoder compression depth ≢ none
unfolding allowed choose_decoder
choose_decoder-allowed compression depth a d = ground arith
