-- ===== src/Cache/Cacher/Navigation.antt =====
-- Where the moves and the edits of the list lead.
use pictus.Base.{
  ℕ, ◌+◌, ◌<◌, ◌≡◌, ◌≢◌, ◌∙◌, ◌⊎◌, inl, inr, true, false, Option, none, arith, length, Bool-cases,
  ◌==◌,
}
use pictus.Cache.State.{Cacher, Returns, Returns-bind, Returns-mono, ◌>>◌}
use pictus.Cache.Cacher.{size_mod, pred_size}
use pictus.Cache.Cacher.Moves.{next_image, previous_image, to_next, to_previous}
use pictus.Cache.Cacher.Frame.{SameList, SameList-length, names, image_in}
use pictus.Cache.Cacher.Priorities.{Prioritised, apply_priorities-Returns}

-- The position is in the list, and the list fits in memory.
abbrev pub InList : Cacher → Type 0
InList c = (c.index < length c.files) × (length c.files < size_mod)

next_image-Returns : (c : Cacher) → InList c → Returns (next_image c) (Prioritised (to_next c))
unfolding next_image to_next
next_image-Returns c h = elim (Bool-cases (length c.files == 0)) [
  | inl z ↦ absurd (ground (arith, h.0))
  | inr z ↦
      rw (z, next_image) (apply_priorities-Returns false (to_next c) (ground (arith, h.0, h.1)))
]

previous_image-Returns :
    (c : Cacher) → InList c → Returns (previous_image c) (Prioritised (to_previous c))
unfolding previous_image to_previous pred_size
previous_image-Returns c h = elim (Bool-cases (length c.files == 0)) [
  | inl z ↦ absurd (ground (arith, h.0))
  | inr z ↦
      rw (z, previous_image)
        (apply_priorities-Returns true (to_previous c) (ground (arith, h.0, h.1)))
]

to_next-InList : (c : Cacher) → InList c → InList (to_next c)
unfolding to_next
to_next-InList c h = (ground (arith, h.0, h.1), h.1)

-- One step forward and one back, unless the step forward was stopped at the end of the list.
there_and_back :
    (c d : Cacher)
    → InList c
    → (c.wrap_around ≡ true) ⊎ (c.index + 1 < length c.files)
    → SameList (to_next c) d
    → (to_previous d).index ≡ c.index
unfolding to_next to_previous pred_size
there_and_back c d h w s = ground (arith, h.0, h.1, SameList-length s, s.same_index, s.same_wrap)

abbrev pub IsBack : Cacher → Option ℕ → Cacher → Type 0
IsBack c p d =
    (d.index ≡ c.index) × (names d ≡ names c) × (image_in d.files d.index ≡ p) × (p ≢ none)

-- `PreviousImage` after `NextImage`, at a position of the list that is not the last or with
-- wrapping around: both return, the position is the old one, the names are the same, and what is
-- returned is the image of the entry there.
pub previous_image-next_image :
    (c : Cacher)
    → InList c
    → (c.wrap_around ≡ true) ⊎ (c.index + 1 < length c.files)
    → Returns ((next_image >> previous_image) c) (IsBack c)
unfolding to_next to_previous
previous_image-next_image c h w =
    Returns-bind (Prioritised (to_next c)) (IsBack c) next_image _ c (next_image-Returns c h)
      λ _ d k.
        let inside : InList (to_next c) = to_next-InList c h in
        let e = SameList-length k.0 in
        Returns-mono (Prioritised (to_previous d)) (IsBack c) _
          (previous_image-Returns d (omega (arith, inside, e, k.0.same_index)))
          λ p f l.
            (l.0.same_index ∙ there_and_back c d h w k.0, l.0.same_names ∙ k.0.same_names, l.5, l.6)
