-- ===== src/Cache/Cacher/Peek.antt =====
-- `PeekRelativeIndex` against the positions that it stands for.
use native.Mathlib.Nat.{mod-eq_of_lt, mod-eq-sub-mod}
use pictus.Base.{
  ℕ, suc, ◌+◌, ◌-◌, ◌%◌, ◌^◌, ◌≤◌, ◌<◌, ◌≡◌, Bool, true, false, some, none, arith, ltb, leb, ◌&&◌,
  if◌then◌else◌,
}
use pictus.Base.Int.{ℤ, pos, negsuc, ◌+ℤ◌}
use pictus.Cache.State.{Cacher}
use pictus.Cache.Cacher.{
  to_int, to_size, wrap_low, wrap_high, in_list, is_zero, peek_relative_index, image_count,
  size_mod,
}

to_int_small : (n : ℕ) → n < 2 ^ 31 → to_int n ≡ pos n
unfolding to_int
to_int_small n h = ground arith

wrap_low-pos : (w : Bool) (n p : ℕ) → wrap_low w n (pos p) ≡ pos p
unfolding wrap_low
wrap_low-pos w n p = ground arith

wrapped_below : (n k : ℕ) → n < 2 ^ 31 → suc k ≤ n → (n + to_size (negsuc k)) % size_mod ≡ n - suc k
unfolding to_size
wrapped_below n k small h = omega arith

wrap_low-negsuc :
    (w : Bool) (n k : ℕ)
    → n < 2 ^ 31
    → suc k ≤ n
    → wrap_low w n (negsuc k) ≡ (if w then pos (n - suc k) else negsuc k)
unfolding wrap_low
wrap_low-negsuc false n k small h = ground arith
wrap_low-negsuc true n k small h =
    rw (wrapped_below n k small h) (ground (arith, to_int_small (n - suc k)))

wrap_high-pos :
    (w : Bool) (n p : ℕ)
    → n < 2 ^ 31
    → p < n + n
    → wrap_high w n (pos p) ≡ (if leb n p && w then pos (p - n) else pos p)
unfolding wrap_high to_size
wrap_high-pos w n p small h = ground (arith, to_int_small (p - n))

wrap_high-negsuc : (n k : ℕ) → wrap_high false n (negsuc k) ≡ negsuc k
unfolding wrap_high
wrap_high-negsuc n k = ground arith

in_list-pos : (n p : ℕ) → p < size_mod → in_list n (pos p) ≡ (if ltb p n then some p else none)
unfolding in_list to_size
in_list-pos n p h = ground arith

in_list-negsuc : (n k : ℕ) → in_list n (negsuc k) ≡ none
unfolding in_list
in_list-negsuc n k = ground arith

step_forward : (i k : ℕ) → pos i +ℤ pos (suc k) ≡ pos (i + suc k)
unfolding ◌+ℤ◌
step_forward i k = ground arith

step_backward :
    (i k : ℕ) → pos i +ℤ negsuc k ≡ (if leb (suc k) i then pos (i - suc k) else negsuc (k - i))
unfolding ◌+ℤ◌
step_backward i k = ground arith

mod_once : (x n : ℕ) → x < n + n → x % n ≡ (if leb n x then x - n else x)
mod_once x n h = ground (
  arith,
  mod-eq_of_lt {n = x} {m = n},
  mod-eq-sub-mod {n = x} {m = n},
  mod-eq_of_lt {n = x - n} {m = n},
)

-- A list of less than 2^31 images, at a position of the list.
module _ (c : Cacher) (small : image_count c < 2 ^ 31) (inside : c.index < image_count c) where
  -- In a list of less than 2^31 images, at a position of it: a step forward by at most their number
  -- reaches the sum, modulo their number with wrapping around, and nothing beyond the end without.
  pub peek_forward :
      (k : ℕ)
      → suc k ≤ image_count c
      → peek_relative_index (pos (suc k)) c ≡ (
          if c.wrap_around
          then some ((c.index + suc k) % image_count c)
          else if ltb (c.index + suc k) (image_count c)
          then some (c.index + suc k)
          else none)
  unfolding peek_relative_index
  peek_forward k h =
      rw
        (
          to_int_small c.index (omega arith),
          step_forward c.index k,
          wrap_low-pos c.wrap_around (image_count c) (c.index + suc k),
          wrap_high-pos c.wrap_around (image_count c) (c.index + suc k) small (omega arith),
          mod_once (c.index + suc k) (image_count c) (omega arith),
        )
        (ground (
          arith,
          in_list-pos (image_count c) (c.index + suc k),
          in_list-pos (image_count c) (c.index + suc k - image_count c),
        ))

  -- In a list of less than 2^31 images, at a position of it: a step backward by at most their
  -- number
  -- reaches the difference, modulo their number with wrapping around, and nothing before the first
  -- image without.
  pub peek_backward :
      (k : ℕ)
      → suc k ≤ image_count c
      → peek_relative_index (negsuc k) c ≡ (
          if c.wrap_around
          then some ((c.index + image_count c - suc k) % image_count c)
          else if leb (suc k) c.index
          then some (c.index - suc k)
          else none)
  unfolding peek_relative_index
  peek_backward k h =
      rw
        (
          to_int_small c.index (omega arith),
          step_backward c.index k,
          mod_once (c.index + image_count c - suc k) (image_count c) (omega arith),
        )
        (ground (
          arith,
          wrap_low-pos c.wrap_around (image_count c) (c.index - suc k),
          wrap_low-negsuc c.wrap_around (image_count c) (k - c.index) small,
          wrap_high-pos c.wrap_around (image_count c) (c.index - suc k) small,
          wrap_high-pos c.wrap_around (image_count c) (image_count c - suc (k - c.index)) small,
          wrap_high-negsuc (image_count c) (k - c.index),
          in_list-pos (image_count c) (c.index - suc k),
          in_list-negsuc (image_count c) (k - c.index),
          in_list-pos (image_count c) (image_count c - suc (k - c.index)),
        ))

in_list_bound : (n : ℕ) (p : ℤ) {i : ℕ} → in_list n p ≡ some i → i < n
unfolding in_list
in_list_bound n p h = ground arith

-- The position that a step aims at, wrapped around where that is set.
abbrev target : ℤ → Cacher → ℤ
target delta c =
    wrap_high c.wrap_around (image_count c)
      (wrap_low c.wrap_around (image_count c) (to_int c.index +ℤ delta))

-- Whatever the step, a position that is found is in the list.
pub peek_bound :
    (delta : ℤ) (c : Cacher) {i : ℕ}
    → is_zero delta ≡ false
    → peek_relative_index delta c ≡ some i
    → i < image_count c
unfolding peek_relative_index
peek_bound delta c z h = in_list_bound (image_count c) (target delta c) (rw z at h)

in_list-zero : (n : ℕ) (p : ℤ) → n ≡ 0 → in_list n p ≡ none
unfolding in_list
in_list-zero n p h = ground arith

-- In an empty list no step finds a position.
pub peek_empty :
    (delta : ℤ) (c : Cacher)
    → is_zero delta ≡ false
    → image_count c ≡ 0
    → peek_relative_index delta c ≡ none
unfolding peek_relative_index
peek_empty delta c z e = rw z (in_list-zero (image_count c) (target delta c) e)
