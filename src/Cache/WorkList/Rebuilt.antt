-- ===== src/Cache/WorkList/Rebuilt.antt =====
-- `Rebuild`: the work list against the queue and the limit.
use pictus.Base.{
  ℕ, ◌+◌, ◌%◌, ◌≤◌, ◌≡◌, ◌≢◌, refl, ap, ◌∙◌, arith, Bool, true, false, ◌&&◌, not, ◌⊎◌, inl, inr,
  Option, none, some, List, [], ◌∷◌, ltb, Bool-cases, Option-cases, map,
}
use mathlib.Core.Path.{ap₂}
use pictus.Cache.Queue.{WorkRequest, ptr_eq, ptr_eq_iff}
use pictus.Cache.Cacher.{size_mod}
use pictus.Cache.Loader.{
  ImageLoader, LoadState, load_state_unprocessed, get_state, deallocate, allow_fast_skip,
  new_loader, purge,
}
use pictus.Cache.Loader.States.{IsValid}
use pictus.Cache.WorkList.{
  WorkList, ◌>>=◌, memory_usage, find_package, erase_package, take_old, collect, is_allocated,
  limit_from, rebuild,
}
use pictus.Cache.WorkList.Choice.{AllValid, memory_known}

abbrev pub images : List ImageLoader → List (Option ℕ)
images ps = map (λ (p : ImageLoader). p.image) ps

-- The images that are asked for; a null pointer asks for none.
abbrev pub wanted : List WorkRequest → List (Option ℕ)
wanted [] = []
wanted (r ∷ rs) = elim r.image [ none ↦ wanted rs | some i ↦ some i ∷ wanted rs ]

erase_package-AllValid :
    (image : Option ℕ) (ps : List ImageLoader) → AllValid ps → AllValid (erase_package image ps)
unfolding erase_package
erase_package-AllValid image [] v = tt
erase_package-AllValid image (p ∷ ps) v = elim (Bool-cases (ptr_eq p.image image)) [
  | inl e ↦ rw (e, erase_package) v.1
  | inr e ↦ rw (e, erase_package) (v.0, erase_package-AllValid image ps v.1)
]

Found : Option ℕ → Option ImageLoader → Type 0
Found image o = (o ≡ none) ⊎ (p : ImageLoader) × (o ≡ some p) × (p.image ≡ image) × IsValid p

find_package-Found :
    (image : Option ℕ) (ps : List ImageLoader) → AllValid ps → Found image (find_package image ps)
unfolding find_package Found
find_package-Found image [] v = inl refl
find_package-Found image (p ∷ ps) v = elim (Bool-cases (ptr_eq p.image image)) [
  | inl e ↦ rw (e, find_package) (inr (p, refl, (ptr_eq_iff p.image image).0 e, v.0))
  | inr e ↦ rw (e, find_package) (find_package-Found image ps v.1)
]

-- A package for a request: the old one, or a new one.
taken :
    (r : WorkRequest) (image : Option ℕ) (o : Option ImageLoader)
    → r.image ≡ image
    → Found image o
    → (p : ImageLoader) × (take_old true r o ≡ some p) × (p.image ≡ image) × IsValid p
unfolding take_old new_loader Found
taken r image o e (inl n) = (new_loader r.image r.filename, rw n refl, e, refl)
taken r image o e (inr (p, q, i, v)) = (p, rw q refl, i, v)

collected :
    (rs : List WorkRequest) (old : List ImageLoader)
    → AllValid old
    → (ps : List ImageLoader) × (rest : List ImageLoader) × (collect true rs old ≡ some (ps, rest))
      × (images ps ≡ wanted rs)
      × AllValid ps
unfolding collect
collected [] old v = ([], old, refl, refl, tt)
collected (r ∷ rs) old v = elim (Option-cases r.image) [
  | inl e ↦ rw (e, collect) (collected rs old v)
  | inr (i, e) ↦
      let (p, t, pi, pv) = taken r (some i) _ e (find_package-Found (some i) old v) in
      let (ps, rest, c, psi, psv) =
        collected rs (erase_package (some i) old) (erase_package-AllValid (some i) old v) in
      (p ∷ ps, rest, rw (e, collect) (rw (t, c) refl), rw e (ap₂ ◌∷◌ pi psi), (pv, psv))
]

-- The packages hold no more memory than the limit, counted as `size_t` from `curr_used`, but for a
-- first package, which is kept whatever it needs.
pub data Within (limit : ℕ) : Bool → ℕ → List ImageLoader → Type 0 where
  nothing : {first : Bool} {curr_used : ℕ} → Within limit first curr_used []
  holds_none :
      {first : Bool} {curr_used : ℕ} {q : ImageLoader} {qs : List ImageLoader}
      → is_allocated (get_state q) ≡ false
      → Within limit false curr_used qs
      → Within limit first curr_used (q ∷ qs)
  holds :
      {first : Bool} {curr_used : ℕ} {q : ImageLoader} {qs : List ImageLoader} (usage : ℕ)
      → memory_usage q ≡ some usage
      → (first ≡ true) ⊎ ((curr_used + usage) % size_mod ≤ limit)
      → Within limit false ((curr_used + usage) % size_mod) qs
      → Within limit first curr_used (q ∷ qs)

-- What the second loop makes of packages.
abbrev Limited : ℕ → Bool → ℕ → List ImageLoader → Option (List ImageLoader) → Type 0
Limited limit first curr_used ps o =
    (qs : List ImageLoader) × (o ≡ some qs)
    × (images qs ≡ images ps)
    × AllValid qs
    × Within limit first curr_used qs

not_read : (s : LoadState) → is_allocated s ≡ true → s ≢ load_state_unprocessed
unfolding is_allocated
not_read s h = ground arith

emptied : (q : ImageLoader) → is_allocated (get_state (deallocate q)) ≡ false
unfolding is_allocated get_state deallocate purge
emptied q = refl

within_limit :
    (first : Bool) (limit used : ℕ)
    → (not first && ltb limit used) ≡ false
    → (first ≡ true) ⊎ (used ≤ limit)
within_limit first limit used h = ground arith

-- The two ways of a package that holds memory.
module _ (limit : ℕ) (first : Bool) (curr_used usage : ℕ) (p : ImageLoader)
    (ps qs : List ImageLoader) (e : is_allocated (get_state (allow_fast_skip first p)) ≡ true)
    (u : memory_usage (allow_fast_skip first p) ≡ some usage) where
  given_up :
      (not first && ltb limit ((curr_used + usage) % size_mod)) ≡ true
      → limit_from limit false curr_used ps ≡ some qs
      → limit_from limit first curr_used (p ∷ ps) ≡ some (deallocate (allow_fast_skip first p) ∷ qs)
  unfolding limit_from
  given_up y l = rw (e, limit_from) (rw (u, ◌>>=◌) (rw (y, ◌>>=◌) (rw (l, ◌>>=◌) refl)))

  kept :
      (not first && ltb limit ((curr_used + usage) % size_mod)) ≡ false
      → limit_from limit false ((curr_used + usage) % size_mod) ps ≡ some qs
      → limit_from limit first curr_used (p ∷ ps) ≡ some (allow_fast_skip first p ∷ qs)
  unfolding limit_from
  kept y l = rw (e, limit_from) (rw (u, ◌>>=◌) (rw (y, ◌>>=◌) (rw (l, ◌>>=◌) refl)))

limited :
    (limit : ℕ) (first : Bool) (curr_used : ℕ) (ps : List ImageLoader)
    → AllValid ps
    → Limited limit first curr_used ps (limit_from limit first curr_used ps)
unfolding limit_from allow_fast_skip deallocate purge
limited limit first curr_used [] v = ([], refl, refl, tt, nothing)
limited limit first curr_used (p ∷ ps) v =
    let q = allow_fast_skip first p in
    elim (Bool-cases (is_allocated (get_state q))) [
      | inr e ↦
          let (qs, l, i, vs, w) = limited limit false curr_used ps v.1 in
          (
            q ∷ qs,
            rw (e, limit_from) (rw l refl),
            ap (λ (t : List (Option ℕ)). p.image ∷ t) i,
            (v.0, vs),
            holds_none e w,
          )
      | inl e ↦
          let (usage, u) = memory_known q v.0 (not_read (get_state q) e) in
          elim (Bool-cases (not first && ltb limit ((curr_used + usage) % size_mod))) [
            | inl y ↦
                let (qs, l, i, vs, w) = limited limit false curr_used ps v.1 in
                (
                  deallocate q ∷ qs,
                  given_up limit first curr_used usage p ps qs e u y l,
                  ap (λ (t : List (Option ℕ)). p.image ∷ t) i,
                  (refl, vs),
                  holds_none (emptied q) w,
                )
            | inr y ↦
                let (qs, l, i, vs, w) =
                  limited limit false ((curr_used + usage) % size_mod) ps v.1 in
                (
                  q ∷ qs,
                  kept limit first curr_used usage p ps qs e u y l,
                  ap (λ (t : List (Option ℕ)). p.image ∷ t) i,
                  (v.0, vs),
                  holds usage u (within_limit first limit _ y) w,
                )
          ]
    ]

-- What `Rebuild` makes of the work list.
abbrev pub Follows : List WorkRequest → WorkList → WorkList → Type 0
Follows rs w x =
    (images x.packages ≡ wanted rs)
    × AllValid x.packages
    × (x.memory_limit ≡ w.new_memory_limit)
    × Within w.new_memory_limit true 0 x.packages
    × (x.has_store ≡ w.has_store)

-- A work list with a factory store and valid loaders: `Rebuild` raises nothing; its packages are
-- then for the images of the queue, in the queue's order, null pointers left out, and valid; the
-- new limit is in force, and what the packages hold is within it, but for the first, which is kept
-- at any size; the store stays.
pub rebuild-Follows :
    (rs : List WorkRequest) (w : WorkList)
    → w.has_store ≡ true
    → AllValid w.packages
    → (x : WorkList) × (rebuild rs w ≡ some x) × Follows rs w x
unfolding rebuild
rebuild-Follows rs w s v =
    let (ps, rest, c, i, vs) = collected rs w.packages v in
    let (qs, l, j, us, h) = limited w.new_memory_limit true 0 ps vs in
    (
      record w { packages = qs; memory_limit = w.new_memory_limit },
      rw (s, c, rebuild) (rw l refl),
      (j ∙ i, us, refl, h, refl),
    )
