-- ===== src/Cache/Cacher/Methods.antt =====
-- Each method that edits the list keeps the position in range and does not read beyond the end.
use Prim.Native.String.{String}
use text.Mathlib.Text.{◌==◌ as str_eq}
use pictus.Base.{
  ℕ, suc, ◌+◌, ◌≤◌, ◌<◌, ◌≡◌, ◌≢◌, refl, inl, inr, false, Option, none, some, List, [], ◌∷◌, arith,
  length, get_elem?, length-append, length-erase_at, length-set, Bool-cases, ◌==◌, leb,
  Option-cases,
}
use pictus.Cache.State.{FileEntry, Cacher, M, ◌>>=◌, ◌>>◌}
use pictus.Cache.Cacher.{current_image, apply_priorities, size_mod, pred_size, new_entry}
use pictus.Cache.Cacher.Moves.{goto_image, find_from, find_image, peek_at}
use pictus.Cache.Cacher.Edits.{
  append_entry, erase_current, erase_other, remove_current_image, remove_image_index,
  remove_image_filename, renamed_image, rename_at, SortMethod, sort_nothing, sort_filename,
  sort_date_created, sort_date_modified, sort_by, insert_by, sort_files, sought, restore,
  remove_found, rename_found, goto_found, sort,
}
use pictus.Cache.Cacher.Frame.{
  SameList-length, SameList-calls, Finds, entry_image-Returns, current_image-Returns,
}
use pictus.Cache.Cacher.Safety.{
  IsValid, Safe, Safe-bind, Safe-bind_Returns, SameList-IsValid, apply_priorities-Safe,
  current_image-Safe, goto_image-Safe,
}

pub find_from_bound :
    (name : String) (i : ℕ) (es : List FileEntry) {j : ℕ}
    → find_from name i es ≡ some j
    → (i ≤ j) × (j < i + length es)
unfolding find_from
find_from_bound name i [] h = absurd (ground arith)
find_from_bound name i (e ∷ es) h = elim (Bool-cases (str_eq e.fullname name)) [
  | inl y ↦ ground arith
  | inr y ↦
      let below = find_from_bound name (i + 1) es (rw y at h) in
      (omega (arith, below.0), omega (arith, below.1))
]

length-insert_by :
    (key : FileEntry → ℕ) (e : FileEntry) (fs : List FileEntry)
    → length (insert_by key e fs) ≡ suc (length fs)
unfolding insert_by
length-insert_by key e [] = refl
length-insert_by key e (f ∷ fs) = ground (arith, length-insert_by key e fs)

length-sort_by : (key : FileEntry → ℕ) (fs : List FileEntry) → length (sort_by key fs) ≡ length fs
unfolding sort_by
length-sort_by key [] = refl
length-sort_by key (f ∷ fs) =
    omega (arith, length-insert_by key f (sort_by key fs), length-sort_by key fs)

length-sort_files :
    (method : SortMethod) (key : FileEntry → ℕ) (fs : List FileEntry)
    → length (sort_files method key fs) ≡ length fs
unfolding sort_files
length-sort_files sort_nothing key fs = refl
length-sort_files sort_filename key fs = refl
length-sort_files sort_date_created key fs = refl
length-sort_files sort_date_modified key fs = length-sort_by key fs

length-rename_at :
    (i : ℕ) (name : String) (fs : List FileEntry) → length (rename_at i name fs) ≡ length fs
unfolding rename_at
length-rename_at i name fs = elim (Option-cases (get_elem? fs i)) [
  | inl e ↦ rw (e, rename_at)
  | inr (x, e) ↦ rw (e, rename_at) (length-set fs i (record x { fullname = name }))
]

module _ (n : ℕ) (small : n < size_mod) where
  pub erase_current-IsValid :
      (c : Cacher) → IsValid n c → 0 < length c.files → IsValid n (erase_current c)
  unfolding erase_current pred_size
  erase_current-IsValid c v h = record {
    in_range = λ k. ground (arith, v.in_range h, length-erase_at c.files c.index, v.fits);
    fits = ground (arith, v.in_range h, length-erase_at c.files c.index, v.fits);
  }

  pub erase_other-IsValid :
      (i : ℕ) (c : Cacher)
      → IsValid n c
      → i < length c.files
      → i ≢ c.index
      → IsValid n (erase_other i c)
  unfolding erase_other pred_size
  erase_other-IsValid i c v h d = record {
    in_range = λ k. ground (arith, v.in_range (omega arith), length-erase_at c.files i, v.fits);
    fits = ground (arith, v.in_range (omega arith), length-erase_at c.files i, v.fits);
  }

  pub remove_current_image-Safe :
      (c : Cacher) → IsValid n c → Safe (remove_current_image c) (IsValid n)
  unfolding remove_current_image
  remove_current_image-Safe c v = elim (Bool-cases (length c.files == 0)) [
    | inl z ↦ rw (z, remove_current_image) tt
    | inr z ↦
        let inside : 0 < length c.files = ground arith in
        rw (z, remove_current_image)
          (Safe-bind_Returns (Finds c.index c) (IsValid n) current_image _ c
            (current_image-Returns c (v.in_range inside))
            λ image d f.
              let s = SameList-calls _ f.0 in
              apply_priorities-Safe n small false _ (
                erase_current-IsValid _ (SameList-IsValid n small s v)
                  (omega (arith, SameList-length f.0))))
  ]

  pub remove_image_index-Safe :
      (i : ℕ) (c : Cacher) → IsValid n c → Safe (remove_image_index i c) (IsValid n)
  unfolding remove_image_index peek_at
  remove_image_index-Safe i c v = elim (Bool-cases (leb (length c.files) i)) [
    | inl y ↦ rw (y, remove_image_index) tt
    | inr y ↦ elim (Bool-cases (i == c.index)) [
      | inl e ↦ rw (y, e, remove_image_index) (remove_current_image-Safe c v)
      | inr e ↦
          let inside : i < length c.files = ground arith in
          rw (y, e, remove_image_index)
            (Safe-bind_Returns (Finds i c) (IsValid n) (peek_at i) _ c
              (rw (y, peek_at) (entry_image-Returns i c inside))
              λ image d f.
                let s = SameList-calls _ f.0 in
                apply_priorities-Safe n small false _ (
                  erase_other-IsValid i _ (SameList-IsValid n small s v)
                    (omega (arith, inside, SameList-length f.0)) (ground (arith, f.0.same_index))))
    ]
  ]

  -- `find_image` returns a position of the list and changes nothing.
  abbrev FoundIn : Cacher → Option ℕ → Cacher → Type 0
  FoundIn c found d = (d ≡ c) × ((i : ℕ) → found ≡ some i → i < length c.files)

  pub find_image-Safe :
      {B : Type 0} (name : String) (c : Cacher) (f : Option ℕ → M B)
      → ((found : Option ℕ)
          → ((i : ℕ) → found ≡ some i → i < length c.files)
          → Safe (f found c) (IsValid n))
      → Safe ((find_image name >>= f) c) (IsValid n)
  unfolding find_image
  find_image-Safe name c f k = elim (Bool-cases (str_eq name "")) [
    | inl e ↦ rw (e, ◌>>=◌, find_image) tt
    | inr e ↦
        rw (e, ◌>>=◌, find_image)
          (k (find_from name 0 c.files) (λ i h. omega (arith, find_from_bound name 0 c.files h)))
  ]

  pub remove_image_filename-Safe :
      (name : String) (c : Cacher) → IsValid n c → Safe (remove_image_filename name c) (IsValid n)
  unfolding remove_image_filename
  remove_image_filename-Safe name c v = find_image-Safe name c _ by_case
    where
      by_case :
          (found : Option ℕ)
          → ((i : ℕ) → found ≡ some i → i < length c.files)
          → Safe (remove_found found c) (IsValid n)
      by_case none h = current_image-Safe n small c v
      by_case (some i) h = remove_image_index-Safe i c v

  pub renamed_image-Safe :
      (old new : String) (c : Cacher) → IsValid n c → Safe (renamed_image old new c) (IsValid n)
  unfolding renamed_image
  renamed_image-Safe old new c v = find_image-Safe old c _ by_case
    where
      by_case :
          (found : Option ℕ)
          → ((i : ℕ) → found ≡ some i → i < length c.files)
          → Safe (rename_found new found c) (IsValid n)
      by_case none h = v
      by_case (some i) h = record {
        in_range = λ k. omega (
          arith,
          length-rename_at i new c.files,
          v.in_range (omega (arith, length-rename_at i new c.files)),
        );
        fits = omega (arith, length-rename_at i new c.files, v.fits);
      }

  pub restore-Safe : (name : String) (c : Cacher) → IsValid n c → Safe (restore name c) (IsValid n)
  unfolding restore
  restore-Safe name c v = elim (Bool-cases (str_eq name "")) [
    | inl e ↦ rw (e, restore) (apply_priorities-Safe n small false c v)
    | inr e ↦ rw (e, restore) (find_image-Safe name c _ by_case)
  ]
    where
      by_case :
          (found : Option ℕ)
          → ((i : ℕ) → found ≡ some i → i < length c.files)
          → Safe ((goto_found found >> apply_priorities false) c) (IsValid n)
      by_case none h = apply_priorities-Safe n small false c v
      by_case (some i) h =
          Safe-bind (IsValid n) (IsValid n) (goto_image i) _ c (goto_image-Safe n small i c v)
            (λ _ d. apply_priorities-Safe n small false d)

  pub sort-Safe :
      (method : SortMethod) (key : FileEntry → ℕ) (c : Cacher)
      → IsValid n c
      → Safe (sort method key c) (IsValid n)
  unfolding sort
  sort-Safe method key c v = restore-Safe (sought c) _ (record {
    in_range = λ k. omega (
      arith,
      length-sort_files method key c.files,
      v.in_range (omega (arith, length-sort_files method key c.files)),
    );
    fits = omega (arith, length-sort_files method key c.files, v.fits);
  })

  pub append_entry-IsValid :
      (name : String) (c : Cacher)
      → IsValid n c
      → length c.files + 1 ≤ n
      → IsValid n (append_entry name c)
  unfolding append_entry
  append_entry-IsValid name c v h =
      ground (arith, length-append c.files (new_entry name ∷ []), v.in_range, v.fits)
