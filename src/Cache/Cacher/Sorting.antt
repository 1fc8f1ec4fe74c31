-- ===== src/Cache/Cacher/Sorting.antt =====
-- `Sort` and the current file.
use Prim.Native.String.{String}
use mathlib.Core.List.{Perm}
use mathlib.Core.List.Perm
use text.Mathlib.Text.{◌==◌ as str_eq}
use text.Mathlib.TextEquality.{eq_iff}
use mathlib.Core.Path.{ap₂}
use pictus.Base.{
  ℕ, zero, suc, ◌+◌, ◌<◌, ◌≡◌, ◌≢◌, ap, ◌∙◌, ◌⊎◌, inl, inr, true, false, Option, none, some, List,
  [], ◌∷◌, arith, map, length, Bool-cases, ltb, get_elem?, get_elem?-lt, le→leb_not, ne→==_not,
  lt→ltb,
}
use pictus.Cache.State.{FileEntry, Cacher, Returns, Returns-bind, Returns-mono, ◌>>=◌}
use pictus.Cache.Cacher.{apply_priorities, current_image_filename}
use pictus.Cache.Cacher.Moves.{find_from, find_image, goto_image}
use pictus.Cache.Cacher.Edits.{
  SortMethod, sort, sought, restore, goto_found, sort_files, sort_by, insert_by, sort_date_modified,
  sort_filename, sort_nothing, sort_date_created,
}
use pictus.Cache.Cacher.Frame.{
  SameList-length, Finds, names, image_in, current_image-Returns, shown,
}
use pictus.Cache.Cacher.Priorities.{Prioritised, apply_priorities-Returns}

insert_by-perm :
    (key : FileEntry → ℕ) (e : FileEntry) (fs : List FileEntry) → Perm (insert_by key e fs) (e ∷ fs)
unfolding insert_by
insert_by-perm key e [] = Perm.refl (e ∷ [])
insert_by-perm key e (f ∷ fs) = elim (Bool-cases (ltb (key f) (key e))) [
  | inl y ↦ rw y (Perm.trans (Perm.cons f (insert_by-perm key e fs)) (Perm.swap e f fs))
  | inr y ↦ rw y (Perm.refl (e ∷ f ∷ fs))
]

sort_by-perm : (key : FileEntry → ℕ) (fs : List FileEntry) → Perm (sort_by key fs) fs
unfolding sort_by
sort_by-perm key [] = Perm.refl []
sort_by-perm key (f ∷ fs) =
    Perm.trans (insert_by-perm key f (sort_by key fs)) (Perm.cons f (sort_by-perm key fs))

pub sort_files-perm :
    (method : SortMethod) (key : FileEntry → ℕ) (fs : List FileEntry)
    → Perm (sort_files method key fs) fs
unfolding sort_files
sort_files-perm sort_nothing key fs = Perm.refl fs
sort_files-perm sort_filename key fs = Perm.refl fs
sort_files-perm sort_date_created key fs = Perm.refl fs
sort_files-perm sort_date_modified key fs = sort_by-perm key fs

-- Some entry has the name.
abbrev Has : String → List FileEntry → Type 0
Has name [] = ⊥
Has name (e ∷ es) = (e.fullname ≡ name) ⊎ Has name es

Has-under :
    (name : String) (e f : FileEntry) (fs gs : List FileEntry)
    → (Has name (e ∷ fs) → Has name gs)
    → Has name (e ∷ f ∷ fs)
    → Has name (f ∷ gs)
Has-under name e f fs gs k (inl p) = inr (k (inl p))
Has-under name e f fs gs k (inr (inl p)) = inl p
Has-under name e f fs gs k (inr (inr p)) = inr (k (inr p))

Has-insert_by :
    (name : String) (key : FileEntry → ℕ) (e : FileEntry) (fs : List FileEntry)
    → Has name (e ∷ fs)
    → Has name (insert_by key e fs)
unfolding insert_by
Has-insert_by name key e [] h = h
Has-insert_by name key e (f ∷ fs) h = elim (Bool-cases (ltb (key f) (key e))) [
  | inl y ↦ rw (y, insert_by) (Has-under name e f fs _ (Has-insert_by name key e fs) h)
  | inr y ↦ rw (y, insert_by) h
]

Has-sort_by :
    (name : String) (key : FileEntry → ℕ) (fs : List FileEntry)
    → Has name fs
    → Has name (sort_by key fs)
unfolding sort_by
Has-sort_by name key [] h = h
Has-sort_by name key (f ∷ fs) (inl p) = Has-insert_by name key f (sort_by key fs) (inl p)
Has-sort_by name key (f ∷ fs) (inr p) =
    Has-insert_by name key f (sort_by key fs) (inr (Has-sort_by name key fs p))

Has-sort_files :
    (name : String) (method : SortMethod) (key : FileEntry → ℕ) (fs : List FileEntry)
    → Has name fs
    → Has name (sort_files method key fs)
unfolding sort_files
Has-sort_files name sort_nothing key fs h = h
Has-sort_files name sort_filename key fs h = h
Has-sort_files name sort_date_created key fs h = h
Has-sort_files name sort_date_modified key fs h = Has-sort_by name key fs h

Has-at : (fs : List FileEntry) (i : ℕ) {e : FileEntry} → get_elem? fs i ≡ some e → Has e.fullname fs
Has-at [] i g = cc
Has-at (f ∷ fs) zero g = inl (ground arith)
Has-at (f ∷ fs) (suc i) g = inr (Has-at fs i g)

-- A name that is there is found, at a position where it stands.
find_from-Has :
    (name : String) (i : ℕ) (fs : List FileEntry)
    → Has name fs
    → (j : ℕ) × (find_from name i fs ≡ some (i + j))
      × (get_elem? (map (λ (e : FileEntry). e.fullname) fs) j ≡ some name)
      × (j < length fs)
unfolding find_from
find_from-Has name i [] h = absurd h
find_from-Has name i (f ∷ fs) h = elim (Bool-cases (str_eq f.fullname name)) [
  | inl y ↦ (0, ground arith, ap some ((eq_iff f.fullname name).0 y), omega arith)
  | inr y ↦
      let tail : Has name fs = ground (arith, eq_iff f.fullname name) in
      let (j, e, g, l) = find_from-Has name (i + 1) fs tail in
      (suc j, ground (arith, e), g, omega (arith, l))
]

-- The list after `std::sort`, before the position is looked for.
abbrev pub sorted : SortMethod → (FileEntry → ℕ) → Cacher → Cacher
sorted method key c = record c { files = sort_files method key c.files }

Has-current : (c : Cacher) → c.index < length c.files → Has (current_image_filename c) c.files
unfolding current_image_filename
Has-current c h =
    let (e, g) = get_elem?-lt c.files c.index h in
    rw (g, current_image_filename) (Has-at c.files c.index g)

differ : (s : String) → s ≢ "" → str_eq s "" ≡ false
differ s ne = elim (Bool-cases (str_eq s "")) [
  | inl y ↦ absurd (ne ((eq_iff s "").0 y))
  | inr y ↦ y
]

-- What `GotoImage` leaves.
abbrev At : ℕ → Cacher → Option ℕ → Cacher → Type 0
At i d _ e = (names e ≡ names d) × (e.index ≡ i) × (length e.files ≡ length d.files)

goto-Returns : (d : Cacher) (i : ℕ) → i < length d.files → Returns (goto_image i d) (At i d)
unfolding goto_image
goto-Returns d i h =
    rw (ne→==_not (length d.files) 0 (omega arith), le→leb_not (length d.files) i h, goto_image)
      (Returns-bind (Prioritised x) (At i d) (apply_priorities false) _ x
        (apply_priorities-Returns false x h)
        λ _ y k.
          Returns-mono (Finds y.index y) (At i d) _
            (current_image-Returns y (omega (arith, h, k.0.same_index, SameList-length k.0)))
            λ p z f. (
              f.0.same_names ∙ k.0.same_names,
              f.0.same_index ∙ k.0.same_index,
              SameList-length f.0 ∙ SameList-length k.0,
            ))
  where
    x : Cacher
    x = record d { index = i; went_forward = true }

sought-current : (c : Cacher) → 0 < c.index → sought c ≡ current_image_filename c
unfolding sought current_image_filename
sought-current c h = rw (lt→ltb 0 c.index h)

-- What `restore` comes to: the same names, and `name` is current.
abbrev pub Restored : String → Cacher → Option ℕ → Cacher → Type 0
Restored name c p d =
    (names d ≡ names c)
    × (current_image_filename d ≡ name)
    × (image_in d.files d.index ≡ p)
    × (p ≢ none)

restore-Returns :
    (name : String) (c : Cacher)
    → str_eq name "" ≡ false
    → Has name c.files
    → Returns (restore name c) (Restored name c)
unfolding restore find_image
restore-Returns name c ne h =
    let (j, found, g, inside) = find_from-Has name 0 c.files h in
    let found' : find_from name 0 c.files ≡ some j = ground (arith, found) in
    rw (ne, restore)
      (rw (ne, ◌>>=◌, find_image)
        (rw (found', goto_found)
          (Returns-bind (At j c) (Restored name c) (goto_image j) _ c (goto-Returns c j inside)
            λ _ x k.
              Returns-mono (Prioritised x) (Restored name c) _
                (apply_priorities-Returns false x (omega (arith, inside, k)))
                λ p y f.
                  let e = f.0.same_names ∙ k.0 in
                  (
                    e,
                    shown y (names c) j
                        (omega (arith, inside, k, f.0.same_index, SameList-length f.0))
                        (ap₂ get_elem? e (f.0.same_index ∙ k.1)) g,
                    f.5,
                    f.6,
                  ))))

-- `Sort` at a position behind the first: it returns, the list is the sorted one, up to images, and
-- a reordering of the old one; the file that was current is current, and its image is returned.
pub sort-keeps_current :
    (method : SortMethod) (key : FileEntry → ℕ) (c : Cacher)
    → 0 < c.index
    → c.index < length c.files
    → current_image_filename c ≢ ""
    → Returns (sort method key c) (Restored (current_image_filename c) (sorted method key c))
      × Perm (names (sorted method key c)) (names c)
unfolding sort
sort-keeps_current method key c h inside ne = (
  rw (sought-current c h) (
      restore-Returns (current_image_filename c) (sorted method key c)
        (differ (current_image_filename c) ne)
        (Has-sort_files (current_image_filename c) method key c.files (Has-current c inside))),
  Perm.map _ (sort_files-perm method key c.files),
)
