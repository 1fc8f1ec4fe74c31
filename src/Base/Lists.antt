-- ===== src/Base/Lists.antt =====
-- Lists measured and indexed by native numbers, under the library's names.
use Prim.Native.Nat.{ℕ, zero, suc, ◌+◌, ◌<◌, ◌≤◌}
use mathlib.Core.Path.{◌≡◌, refl, ap}
use mathlib.Core.List.{List, [], ◌∷◌, ◌++◌, map}
use mathlib.Core.Option.{Option, none, some}
use native.Mathlib.Omega.{arith}

module _ {ℓ} {A : Type ℓ} where
  abbrev pub length : List A → ℕ
  length [] = 0
  length (x ∷ xs) = suc (length xs)

  abbrev pub get_elem? : List A → ℕ → Option A
  get_elem? [] i = none
  get_elem? (x ∷ xs) zero = some x
  get_elem? (x ∷ xs) (suc i) = get_elem? xs i

  -- A write out of bounds changes nothing.
  abbrev pub set : List A → ℕ → A → List A
  set [] i v = []
  set (x ∷ xs) zero v = v ∷ xs
  set (x ∷ xs) (suc i) v = x ∷ set xs i v

  abbrev pub take : ℕ → List A → List A
  take zero xs = []
  take (suc n) [] = []
  take (suc n) (x ∷ xs) = x ∷ take n xs

  abbrev pub drop : ℕ → List A → List A
  drop zero xs = xs
  drop (suc n) [] = []
  drop (suc n) (x ∷ xs) = drop n xs

  abbrev pub replicate : ℕ → A → List A
  replicate zero a = []
  replicate (suc n) a = a ∷ replicate n a

  -- `v.erase(v.begin() + i)`; out of bounds it changes nothing.
  abbrev pub erase_at : List A → ℕ → List A
  erase_at [] i = []
  erase_at (x ∷ xs) zero = xs
  erase_at (x ∷ xs) (suc i) = x ∷ erase_at xs i

module _ {ℓ} {A : Type ℓ} where
  pub length-append : (xs ys : List A) → length (xs ++ ys) ≡ length xs + length ys
  length-append [] ys = omega arith
  length-append (x ∷ xs) ys = omega (arith, length-append xs ys)

  pub length-set : (xs : List A) (i : ℕ) (v : A) → length (set xs i v) ≡ length xs
  length-set [] i v = refl
  length-set (x ∷ xs) zero v = refl
  length-set (x ∷ xs) (suc i) v = ap suc (length-set xs i v)

  pub length-replicate : (n : ℕ) (a : A) → length (replicate n a) ≡ n
  length-replicate zero a = refl
  length-replicate (suc n) a = ap suc (length-replicate n a)

  pub length-erase_at :
      (xs : List A) (i : ℕ) → i < length xs → length (erase_at xs i) + 1 ≡ length xs
  length-erase_at [] i h = elim h [ ]
  length-erase_at (x ∷ xs) zero h = omega arith
  length-erase_at (x ∷ xs) (suc i) h = omega (arith, length-erase_at xs i (omega arith))

  pub get_elem?-lt : (xs : List A) (i : ℕ) → i < length xs → (a : A) × (get_elem? xs i ≡ some a)
  get_elem?-lt [] i h = elim h [ ]
  get_elem?-lt (x ∷ xs) zero h = (x, refl)
  get_elem?-lt (x ∷ xs) (suc i) h = get_elem?-lt xs i (omega arith)

  pub get_elem?-ge : (xs : List A) (i : ℕ) → length xs ≤ i → get_elem? xs i ≡ none
  get_elem?-ge [] i h = refl
  get_elem?-ge (x ∷ xs) zero h = elim h [ ]
  get_elem?-ge (x ∷ xs) (suc i) h = get_elem?-ge xs i (omega arith)

  -- Elements before the erased one keep their place, and those behind it move up by one.
  pub get_elem?-erase_at_lt :
      (xs : List A) (i j : ℕ) → j < i → get_elem? (erase_at xs i) j ≡ get_elem? xs j
  get_elem?-erase_at_lt [] i j h = refl
  get_elem?-erase_at_lt (x ∷ xs) zero j h = elim h [ ]
  get_elem?-erase_at_lt (x ∷ xs) (suc i) zero h = refl
  get_elem?-erase_at_lt (x ∷ xs) (suc i) (suc j) h = get_elem?-erase_at_lt xs i j (omega arith)

  pub get_elem?-erase_at_ge :
      (xs : List A) (i j : ℕ) → i ≤ j → get_elem? (erase_at xs i) j ≡ get_elem? xs (suc j)
  get_elem?-erase_at_ge [] i j h = refl
  get_elem?-erase_at_ge (x ∷ xs) zero j h = refl
  get_elem?-erase_at_ge (x ∷ xs) (suc i) zero h = elim h [ ]
  get_elem?-erase_at_ge (x ∷ xs) (suc i) (suc j) h = get_elem?-erase_at_ge xs i j (omega arith)

  pub get_elem?-append_ge :
      (xs ys : List A) (i : ℕ) → get_elem? (xs ++ ys) (length xs + i) ≡ get_elem? ys i
  get_elem?-append_ge [] ys i = ap (get_elem? ys) (omega arith)
  get_elem?-append_ge (x ∷ xs) ys i =
      let e : suc (length xs) + i ≡ suc (length xs + i) = omega arith in
      rw e (get_elem?-append_ge xs ys i)

module _ {ℓ κ} {A : Type ℓ} {B : Type κ} (f : A → B) where
  pub length-map : (xs : List A) → length (map f xs) ≡ length xs
  length-map [] = refl
  length-map (x ∷ xs) = ap suc (length-map xs)

  pub map-erase_at : (xs : List A) (i : ℕ) → map f (erase_at xs i) ≡ erase_at (map f xs) i
  map-erase_at [] i = refl
  map-erase_at (x ∷ xs) zero = refl
  map-erase_at (x ∷ xs) (suc i) = ap (◌∷◌ (f x)) (map-erase_at xs i)

  -- A write of a value with the image that the old one had is not seen through `f`.
  pub map-set_self :
      (xs : List A) (i : ℕ) {x v : A}
      → get_elem? xs i ≡ some x
      → f v ≡ f x
      → map f (set xs i v) ≡ map f xs
  map-set_self [] i e h = refl
  map-set_self (y ∷ ys) zero e h = ground arith
  map-set_self (y ∷ ys) (suc i) e h = ap (◌∷◌ (f y)) (map-set_self ys i e h)

  pub get_elem?-map :
      (xs : List A) (i : ℕ) {x : A} → get_elem? xs i ≡ some x → get_elem? (map f xs) i ≡ some (f x)
  get_elem?-map [] i e = cc
  get_elem?-map (y ∷ ys) zero e = ground arith
  get_elem?-map (y ∷ ys) (suc i) e = get_elem?-map ys i e
