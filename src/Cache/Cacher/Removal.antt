-- ===== src/Cache/Cacher/Removal.antt =====
-- What becomes of the list and of the current file when a file is removed.
use Prim.Native.String.{String}
use mathlib.Core.Path.{ap₂}
use pictus.Base.{
  ℕ, zero, suc, ◌+◌, ◌-◌, ◌<◌, ◌≡◌, ◌≢◌, ap, ◌∙◌, false, Option, none, some, List, [], ◌∷◌, ◌++◌,
  arith, length, le→leb_not, ne→==_not, ltb, get_elem?, erase_at, map-erase_at, length-erase_at,
  get_elem?-erase_at_lt, get_elem?-erase_at_ge, if◌then◌else◌,
}
use pictus.Cache.Queue.{remove_image}
use pictus.Cache.State.{FileEntry, Cacher, Returns, Returns-bind, Returns-mono}
use pictus.Cache.Cacher.{current_image, current_image_filename, pred_size}
use pictus.Cache.Cacher.Moves.{peek_at}
use pictus.Cache.Cacher.Edits.{remove_current_image, remove_image_index, erase_current, erase_other}
use pictus.Cache.Cacher.Frame.{
  SameList, SameList-length, SameList-calls, Finds, names, image_in, entry_image-Returns,
  current_image-Returns, names_current, shown, current_image_filename-SameList,
}
use pictus.Cache.Cacher.Priorities.{Prioritised, apply_priorities-Returns}
use pictus.Cache.Cacher.Navigation.{InList}

erase_other_index :
    (i : ℕ) (c : Cacher)
    → InList c
    → i < length c.files
    → i ≢ c.index
    → (erase_other i c).index ≡ (if ltb i c.index then c.index - 1 else c.index)
unfolding erase_other pred_size
erase_other_index i c h inside ne = ground (arith, h.0, h.1, length-erase_at c.files i)

names-erase_other : (i : ℕ) (c : Cacher) → names (erase_other i c) ≡ erase_at (names c) i
unfolding erase_other
names-erase_other i c = ground (arith, map-erase_at (λ (e : FileEntry). e.fullname) c.files i)

get_elem?-erase_other :
    {A : Type 0} (xs : List A) (i j : ℕ)
    → i ≢ j
    → get_elem? (erase_at xs i) (if ltb i j then j - 1 else j) ≡ get_elem? xs j
get_elem?-erase_other xs i zero ne = ground (arith, get_elem?-erase_at_lt xs i 0)
get_elem?-erase_other xs i (suc j) ne =
    ground (arith, get_elem?-erase_at_lt xs i (suc j), get_elem?-erase_at_ge xs i j)

-- The result of a removal: the names without the one at `i`, and `name` current.
abbrev pub Removed : Cacher → ℕ → String → Option ℕ → Cacher → Type 0
Removed c i name p d =
    (names d ≡ erase_at (names c) i)
    × (current_image_filename d ≡ name)
    × (image_in d.files d.index ≡ p)
    × (p ≢ none)

length-erase_other :
    (i : ℕ) (c : Cacher) → i < length c.files → length (erase_other i c).files + 1 ≡ length c.files
unfolding erase_other
length-erase_other i c h = ground (arith, length-erase_at c.files i h)

erase_other_fits :
    (i : ℕ) (c : Cacher)
    → InList c
    → i < length c.files
    → i ≢ c.index
    → (erase_other i c).index < length (erase_other i c).files
erase_other_fits i c h inside ne =
    ground (arith, length-erase_other i c inside, h, erase_other_index i c h inside ne)

erase_other_name :
    (i : ℕ) (c : Cacher)
    → InList c
    → i < length c.files
    → i ≢ c.index
    → current_image_filename (erase_other i c) ≡ current_image_filename c
erase_other_name i c h inside ne =
    shown (erase_other i c) (names c) c.index (erase_other_fits i c h inside ne)
      (rw (names-erase_other i c, erase_other_index i c h inside ne)
        (get_elem?-erase_other (names c) i c.index ne))
      (names_current c h.0)

InList-SameList : (c d : Cacher) → SameList c d → InList c → InList d
InList-SameList c d s h = omega (arith, h, SameList-length s, s.same_index)

-- After the background thread has been asked to drop an image.
abbrev asked : Option ℕ → Cacher → Cacher
asked image d = record d { calls = d.calls ++ remove_image image ∷ [] }

asked-SameList : {c d : Cacher} (image : Option ℕ) → SameList c d → SameList c (asked image d)
asked-SameList {c} {d} image s = SameList-calls (d.calls ++ remove_image image ∷ []) s

-- `RemoveImageIndex` of another image than the current one: it returns, the name at the index is
-- taken out of the list, the current file is the one it was, and its image is returned.
pub remove_image_index-keeps_current :
    (i : ℕ) (c : Cacher)
    → InList c
    → i < length c.files
    → i ≢ c.index
    → Returns (remove_image_index i c) (Removed c i (current_image_filename c))
unfolding remove_image_index peek_at
remove_image_index-keeps_current i c h inside ne =
    rw (le→leb_not (length c.files) i inside, ne→==_not i c.index ne, remove_image_index)
      (Returns-bind (Finds i c) (Removed c i (current_image_filename c)) (peek_at i) _ c
        (rw (le→leb_not (length c.files) i inside, peek_at) (entry_image-Returns i c inside))
        λ image d f.
          let x : Cacher = asked image d in
          let s = asked-SameList image f.0 in
          let here = InList-SameList c x s h in
          let inside' : i < length d.files = omega (arith, inside, SameList-length f.0) in
          let ne' : i ≢ d.index = λ e. ne (e ∙ f.0.same_index) in
          Returns-mono (Prioritised (erase_other i x)) (Removed c i (current_image_filename c)) _
            (apply_priorities-Returns false _ (erase_other_fits i x here inside' ne'))
            λ p e k. (
              k.0.same_names
                  ∙ names-erase_other i x
                  ∙ ap (λ (xs : List String). erase_at xs i) s.same_names,
              current_image_filename-SameList k.0
                  ∙ erase_other_name i x here inside' ne'
                  ∙ current_image_filename-SameList s,
              k.5,
              k.6,
            ))

-- The position of the file that is shown instead of a removed current one: the next one after a
-- move forward, the previous one after a move back, and the other one where that is missing.
abbrev pub neighbour : Cacher → ℕ
neighbour c =
    if c.went_forward
    then (if ltb (c.index + 1) (length c.files) then c.index + 1 else c.index - 1)
    else if ltb 0 c.index
    then c.index - 1
    else 1

names-erase_current : (c : Cacher) → names (erase_current c) ≡ erase_at (names c) c.index
unfolding erase_current
names-erase_current c = ground (arith, map-erase_at (λ (e : FileEntry). e.fullname) c.files c.index)

erase_current_fits :
    (c : Cacher)
    → InList c
    → 1 < length c.files
    → (erase_current c).index < length (erase_current c).files
unfolding erase_current pred_size
erase_current_fits c h two = ground (arith, h, length-erase_at c.files c.index h.0)

erase_current_shows :
    (c : Cacher)
    → InList c
    → 1 < length c.files
    → get_elem? (erase_at (names c) c.index) (erase_current c).index
      ≡ get_elem? (names c) (neighbour c)
unfolding erase_current pred_size
erase_current_shows c h two = ground (
  arith,
  h,
  length-erase_at c.files c.index h.0,
  get_elem?-erase_at_lt (names c) c.index (c.index - 1),
  get_elem?-erase_at_ge (names c) c.index c.index,
)

neighbour-SameList : (c d : Cacher) → SameList c d → neighbour d ≡ neighbour c
neighbour-SameList c d s = ground (arith, s.same_index, s.same_direction, SameList-length s)

-- `RemoveCurrentImage` from a list of at least two: it returns, the current name is taken out, the
-- file that was at the neighbouring position is current, and its image is returned.
pub remove_current_image-shows_neighbour :
    (c : Cacher) (name : String)
    → InList c
    → 1 < length c.files
    → get_elem? (names c) (neighbour c) ≡ some name
    → Returns (remove_current_image c) (Removed c c.index name)
unfolding remove_current_image
remove_current_image-shows_neighbour c name h two g =
    rw (ne→==_not (length c.files) 0 (omega arith), remove_current_image)
      (Returns-bind (Finds c.index c) (Removed c c.index name) current_image _ c
        (current_image-Returns c h.0)
        λ image d f.
          let x : Cacher = asked image d in
          let s = asked-SameList image f.0 in
          let here = InList-SameList c x s h in
          let two' : 1 < length d.files = omega (arith, two, SameList-length f.0) in
          Returns-mono (Prioritised (erase_current x)) (Removed c c.index name) _
            (apply_priorities-Returns false _ (erase_current_fits x here two'))
            λ p e k. (
              k.0.same_names ∙ names-erase_current x ∙ ap₂ erase_at s.same_names s.same_index,
              current_image_filename-SameList k.0
                  ∙ shown (erase_current x) (names x) (neighbour x) (erase_current_fits x here two')
                      (rw (names-erase_current x) (erase_current_shows x here two'))
                      (rw (s.same_names, neighbour-SameList c x s) g),
              k.5,
              k.6,
            ))
