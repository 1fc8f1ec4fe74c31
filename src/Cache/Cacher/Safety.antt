-- ===== src/Cache/Cacher/Safety.antt =====
-- Positions in the list, and calls that read beyond its end or not.
use pictus.Base.{ℕ, ◌≤◌, ◌<◌, inl, inr, Bool, true, false, arith, length, Bool-cases, ◌==◌, leb}
use pictus.Cache.State.{
  Cacher, M, Result, ok, err, invalid_call, invalid_param, out_of_range, Returns, ◌>>=◌, ◌>>◌,
}
use pictus.Cache.Cacher.{entry_image, current_image, apply_priorities, size_mod, pred_size}
use pictus.Cache.Cacher.Moves.{
  to_first, to_last, to_previous, to_next, first_image, last_image, previous_image, next_image,
  goto_image,
}
use pictus.Cache.Cacher.Frame.{
  SameList, SameList-refl, SameList-length, SameList-calls, entry_image-Returns,
  current_image-Returns,
}
use pictus.Cache.Cacher.Priorities.{
  apply_priorities-Returns, apply_priorities-empty, current_image-empty,
}

-- Where there are entries, the position is one of them, and there are at most `n` entries.
pub record IsValid (n : ℕ) (c : Cacher) : Type 0 where
  pub in_range : 0 < length c.files → c.index < length c.files
  pub fits : length c.files ≤ n

-- The call does not read out of range, and if it returns, the state meets `P`.
abbrev pub Safe : {A : Type 0} → Result (A × Cacher) → (Cacher → Type 0) → Type 0
Safe (ok (a, d)) P = P d
Safe (err invalid_call) P = Unit
Safe (err invalid_param) P = Unit
Safe (err out_of_range) P = ⊥

pub Safe-bind :
    {A B : Type 0} (P Q : Cacher → Type 0) (m : M A) (f : A → M B) (c : Cacher)
    → Safe (m c) P
    → ((a : A) (d : Cacher) → P d → Safe (f a d) Q)
    → Safe ((m >>= f) c) Q
Safe-bind {A} {B} P Q m f c h k = go (m c) h
  where
    go :
        (r : Result (A × Cacher)) → Safe r P → Safe (elim r [ ok (a, d) ↦ f a d | err e ↦ err e ]) Q
    go (ok (a, d)) p = k a d p
    go (err invalid_call) p = tt
    go (err invalid_param) p = tt
    go (err out_of_range) p = p

pub Returns-Safe :
    {A : Type 0} {Q : A → Cacher → Type 0} (P : Cacher → Type 0) (r : Result (A × Cacher))
    → Returns r Q
    → ((a : A) (d : Cacher) → Q a d → P d)
    → Safe r P
Returns-Safe P (ok (a, d)) h k = k a d h
Returns-Safe P (err e) h k = absurd h

pub Safe-bind_Returns :
    {A B : Type 0} (R : A → Cacher → Type 0) (Q : Cacher → Type 0) (m : M A) (f : A → M B)
    (c : Cacher)
    → Returns (m c) R
    → ((a : A) (d : Cacher) → R a d → Safe (f a d) Q)
    → Safe ((m >>= f) c) Q
Safe-bind_Returns {A} {B} R Q m f c h k = go (m c) h
  where
    go :
        (r : Result (A × Cacher))
        → Returns r R
        → Safe (elim r [ ok (a, d) ↦ f a d | err e ↦ err e ]) Q
    go (ok (a, d)) p = k a d p
    go (err e) p = absurd p

module _ (n : ℕ) (small : n < size_mod) where
  pub SameList-IsValid : {c d : Cacher} → SameList c d → IsValid n c → IsValid n d
  SameList-IsValid {c} {d} s v = record {
    in_range = λ h.
        omega
          (arith, v.in_range (omega (arith, SameList-length s)), SameList-length s, s.same_index);
    fits = omega (arith, SameList-length s, v.fits);
  }

  pub apply_priorities-Safe :
      (flip : Bool) (c : Cacher) → IsValid n c → Safe (apply_priorities flip c) (IsValid n)
  apply_priorities-Safe flip c v = elim (Bool-cases (length c.files == 0)) [
    | inl z ↦
        rw (apply_priorities-empty flip c (ground arith))
          (SameList-IsValid (SameList-calls _ (SameList-refl c)) v)
    | inr z ↦
        Returns-Safe (IsValid n) (apply_priorities flip c)
          (apply_priorities-Returns flip c (v.in_range (ground arith)))
          (λ p d h. SameList-IsValid h.0 v)
  ]

  pub current_image-Safe : (c : Cacher) → IsValid n c → Safe (current_image c) (IsValid n)
  current_image-Safe c v = elim (Bool-cases (length c.files == 0)) [
    | inl z ↦ rw (current_image-empty c (ground arith)) v
    | inr z ↦
        Returns-Safe (IsValid n) (current_image c)
          (current_image-Returns c (v.in_range (ground arith))) (λ p d h. SameList-IsValid h.0 v)
  ]

  pub entry_image-Safe :
      (i : ℕ) (c : Cacher) → i < length c.files → IsValid n c → Safe (entry_image i c) (IsValid n)
  entry_image-Safe i c h v =
      Returns-Safe (IsValid n) (entry_image i c) (entry_image-Returns i c h)
        (λ p d k. SameList-IsValid k.0 v)

  -- The moves.
  pub moved :
      (flip : Bool) (d : Cacher)
      → IsValid n d
      → Safe ((apply_priorities flip >> current_image) d) (IsValid n)
  moved flip d v =
      Safe-bind (IsValid n) (IsValid n) (apply_priorities flip) _ d (apply_priorities-Safe flip d v)
        (λ _ e. current_image-Safe e)

  pub to_first-IsValid : (c : Cacher) → IsValid n c → IsValid n (to_first c)
  unfolding to_first
  to_first-IsValid c v = record { in_range = λ h. h; fits = v.fits }

  pub to_last-IsValid : (c : Cacher) → IsValid n c → IsValid n (to_last c)
  unfolding to_last pred_size
  to_last-IsValid c v = record { in_range = λ h. omega (arith, v.fits); fits = v.fits }

  pub to_previous-IsValid : (c : Cacher) → IsValid n c → IsValid n (to_previous c)
  unfolding to_previous pred_size
  to_previous-IsValid c v = record {
    in_range = λ h. ground (arith, v.in_range h, v.fits);
    fits = v.fits;
  }

  pub to_next-IsValid : (c : Cacher) → IsValid n c → IsValid n (to_next c)
  unfolding to_next
  to_next-IsValid c v = record {
    in_range = λ h. ground (arith, v.in_range h, v.fits);
    fits = v.fits;
  }

  pub first_image-Safe : (c : Cacher) → IsValid n c → Safe (first_image c) (IsValid n)
  unfolding first_image
  first_image-Safe c v = moved false (to_first c) (to_first-IsValid c v)

  pub last_image-Safe : (c : Cacher) → IsValid n c → Safe (last_image c) (IsValid n)
  unfolding last_image
  last_image-Safe c v = moved true (to_last c) (to_last-IsValid c v)

  pub previous_image-Safe : (c : Cacher) → IsValid n c → Safe (previous_image c) (IsValid n)
  unfolding previous_image
  previous_image-Safe c v = elim (Bool-cases (length c.files == 0)) [
    | inl z ↦ rw (z, previous_image) v
    | inr z ↦
        rw (z, previous_image)
          (apply_priorities-Safe true (to_previous c) (to_previous-IsValid c v))
  ]

  pub next_image-Safe : (c : Cacher) → IsValid n c → Safe (next_image c) (IsValid n)
  unfolding next_image
  next_image-Safe c v = elim (Bool-cases (length c.files == 0)) [
    | inl z ↦ rw (z, next_image) v
    | inr z ↦ rw (z, next_image) (apply_priorities-Safe false (to_next c) (to_next-IsValid c v))
  ]

  pub goto_image-Safe : (i : ℕ) (c : Cacher) → IsValid n c → Safe (goto_image i c) (IsValid n)
  unfolding goto_image
  goto_image-Safe i c v = elim (Bool-cases (length c.files == 0)) [
    | inl z ↦ rw (z, goto_image) tt
    | inr z ↦ elim (Bool-cases (leb (length c.files) i)) [
      | inl y ↦ rw (z, goto_image) (rw (y, goto_image) tt)
      | inr y ↦
          rw (z, goto_image)
            (rw (y, goto_image)
              (moved false _ (record { in_range = λ h. ground arith; fits = v.fits })))
    ]
  ]
