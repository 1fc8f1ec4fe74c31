-- ===== src/Cache/Cacher/Moves.antt =====
-- imagecache.cpp: the methods of `Cacher` that move in the list or look at it.
use Prim.Native.String.{String}
use text.Mathlib.Text.{◌==◌ as str_eq}
use pictus.Base.{
  ℕ, ◌+◌, ◌%◌, true, false, Option, none, some, List, [], ◌∷◌, ◌==◌, ltb, leb, if◌then◌else◌,
}
use pictus.Base.Int.{ℤ}
use pictus.Cache.State.{
  FileEntry, Cacher, M, ◌>>◌, pure, raise, modify, invalid_call, invalid_param,
}
use pictus.Cache.Cacher.{
  size_mod, pred_size, image_count, entry_image, current_image, peek_relative_index,
  apply_priorities,
}

-- The effect of each move on `m_index` and `m_wentForward`.
unfoldable pub to_first : Cacher → Cacher
to_first c = record c { index = 0; went_forward = true }

unfoldable pub to_last : Cacher → Cacher
to_last c = record c { index = pred_size (image_count c); went_forward = false }

unfoldable pub to_previous : Cacher → Cacher
to_previous c = record c {
  index =
      if c.wrap_around
      then pred_size (if c.index == 0 then image_count c else c.index)
      else if ltb 0 c.index
      then pred_size c.index
      else c.index;
  went_forward = false;
}

next_index : Cacher → ℕ
next_index c =
    let i = (c.index + 1) % size_mod in
    if c.wrap_around
    then (if leb (image_count c) i then 0 else i)
    else if ltb i (image_count c)
    then i
    else c.index

unfoldable pub to_next : Cacher → Cacher
unfolding next_index
to_next c = record c { index = next_index c; went_forward = true }

unfoldable pub first_image : M (Option ℕ)
first_image = do modify to_first; apply_priorities false; current_image

unfoldable pub last_image : M (Option ℕ)
last_image = do modify to_last; apply_priorities true; current_image

unfoldable pub previous_image : M (Option ℕ)
previous_image c =
    if image_count c == 0 then pure none c else (do modify to_previous; apply_priorities true) c

unfoldable pub next_image : M (Option ℕ)
next_image c =
    if image_count c == 0 then pure none c else (do modify to_next; apply_priorities false) c

unfoldable pub goto_image : ℕ → M (Option ℕ)
goto_image i c =
    if image_count c == 0
    then raise invalid_call c
    else if leb (image_count c) i
    then raise invalid_param c
    else (do
      modify (λ d. record d { index = i; went_forward = true })
      apply_priorities false
      current_image)
        c

-- The loop of `FindImage`, from position `i`.
unfoldable pub find_from : String → ℕ → List FileEntry → Option ℕ
find_from name i [] = none
find_from name i (e ∷ es) = if str_eq e.fullname name then some i else find_from name (i + 1) es

unfoldable pub find_image : String → M (Option ℕ)
unfolding find_from
find_image name c =
    if str_eq name "" then raise invalid_param c else pure (find_from name 0 c.files) c

unfoldable pub peek_at : ℕ → M (Option ℕ)
peek_at i c = if leb (image_count c) i then raise invalid_param c else entry_image i c

unfoldable pub peek_relative : ℤ → M (Option ℕ)
peek_relative delta c = elim (peek_relative_index delta c) [
  | none ↦ pure none c
  | some i ↦ entry_image i c
]
