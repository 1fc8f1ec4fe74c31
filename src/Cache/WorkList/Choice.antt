-- ===== src/Cache/WorkList/Choice.antt =====
-- `LocatePackage`: which package is worked on next.
use pictus.Base.{
  ℕ, ◌+◌, ◌%◌, ◌==◌, ◌<◌, ◌≡◌, ◌≢◌, refl, ap, ◌∙◌, arith, Bool, true, false, ◌&&◌, not, ◌⊎◌, inl,
  inr, Option, none, some, List, [], ◌∷◌, ◌++◌, ltb, Bool-cases, Option-cases, ltb→lt, ==_iff,
}
use pictus.Cache.Cacher.{size_mod}
use pictus.Cache.Loader.{
  ImageLoader, LoadState, load_state_unprocessed, load_state_header, load_state_loading,
  load_state_done, get_state, memory_requirements,
}
use pictus.Cache.Loader.States.{IsValid}
use pictus.Cache.Loader.Reach.{memory_requirements-IsValid}
use pictus.Cache.WorkList.{
  WorkList, memory_usage, memory_usage_in, enough_memory, fast_pass, suitable_in,
  suitable_work_package, scan_from, scan_for_package, second_scan, locate_package,
}

abbrev pub AllValid : List ImageLoader → Type 0
AllValid [] = Unit
AllValid (p ∷ ps) = IsValid p × AllValid ps

-- There is something to do for the package, and there is memory for it, or it is not yet known how
-- much it needs, or nothing is in use before it.
abbrev pub Fits : ℕ → ImageLoader → ℕ → Type 0
Fits limit p curr_used =
    (get_state p ≢ load_state_done)
    × ((get_state p ≡ load_state_unprocessed)
        ⊎ (curr_used ≡ 0)
        ⊎ (usage : ℕ) × (memory_usage p ≡ some usage) × ((curr_used + usage) % size_mod < limit))

usage_in :
    (s : LoadState) (p : ImageLoader)
    → s ≢ load_state_unprocessed
    → memory_usage_in s p ≡ memory_requirements p
unfolding memory_usage_in
usage_in load_state_unprocessed p h = absurd (h refl)
usage_in load_state_header p h = refl
usage_in load_state_loading p h = refl
usage_in load_state_done p h = refl

pub memory_known :
    (p : ImageLoader)
    → IsValid p
    → get_state p ≢ load_state_unprocessed
    → (usage : ℕ) × (memory_usage p ≡ some usage)
unfolding memory_usage
memory_known p v h = elim (Option-cases (memory_requirements p)) [
  | inl e ↦ absurd (memory_requirements-IsValid p v h e)
  | inr (usage, e) ↦ (usage, usage_in (get_state p) p h ∙ e)
]

-- The verdict on a package: it fits, or its memory is known.
abbrev pub Verdict : ImageLoader → ℕ → ℕ → Option Bool → Type 0
Verdict p curr_used limit o =
    ((o ≡ some true) × Fits limit p curr_used)
    ⊎ ((o ≡ some false) × (usage : ℕ) × (memory_usage p ≡ some usage))

enough_memory-Verdict :
    (p : ImageLoader) (curr_used : ℕ) (fast : Bool) (limit usage : ℕ)
    → memory_usage p ≡ some usage
    → get_state p ≢ load_state_done
    → Verdict p curr_used limit (enough_memory p curr_used fast limit)
unfolding enough_memory
enough_memory-Verdict p curr_used fast limit usage e h = elim (Bool-cases (curr_used == 0)) [
  | inl z ↦ rw (z, enough_memory) (inl (refl, (h, inr (inl ((==_iff curr_used 0).0 z)))))
  | inr z ↦ elim (Bool-cases (fast && not (fast_pass p))) [
    | inl y ↦ rw (z, y, enough_memory) (inr (refl, usage, e))
    | inr y ↦ elim (Bool-cases (ltb ((curr_used + usage) % size_mod) limit)) [
      | inl x ↦
          rw (z, y, e, enough_memory)
            (rw x (inl (refl, (h, inr (inr (usage, refl, ltb→lt _ _ x))))))
      | inr x ↦ rw (z, y, e, enough_memory) (rw x (inr (refl, usage, refl)))
    ]
  ]
]

judged :
    (p : ImageLoader) (curr_used : ℕ) (fast : Bool) (limit : ℕ) (s : LoadState)
    → IsValid p
    → get_state p ≡ s
    → Verdict p curr_used limit (suitable_in s p curr_used fast limit)
unfolding suitable_in
judged p curr_used fast limit load_state_done v e =
    let (usage, u) = memory_known p v (ground arith) in inr (refl, usage, u)
judged p curr_used fast limit load_state_unprocessed v e = inl (refl, (ground arith, inl e))
judged p curr_used fast limit load_state_header v e =
    let (usage, u) = memory_known p v (ground arith) in
    enough_memory-Verdict p curr_used fast limit usage u (ground arith)
judged p curr_used fast limit load_state_loading v e =
    let (usage, u) = memory_known p v (ground arith) in
    enough_memory-Verdict p curr_used fast limit usage u (ground arith)

pub verdict :
    (p : ImageLoader) (curr_used : ℕ) (fast : Bool) (limit : ℕ)
    → IsValid p
    → Verdict p curr_used limit (suitable_work_package p curr_used fast limit)
unfolding suitable_work_package
verdict p curr_used fast limit v = judged p curr_used fast limit (get_state p) v refl

-- The memory in use behind the packages, counted as `size_t`.
abbrev pub Uses : ℕ → List ImageLoader → ℕ → Type 0
Uses curr_used [] total = curr_used ≡ total
Uses curr_used (p ∷ ps) total =
    (usage : ℕ) × (memory_usage p ≡ some usage) × Uses ((curr_used + usage) % size_mod) ps total

-- The package stands in the list and fits with what stands before it.
pub record Chosen (limit curr_used : ℕ) (ps : List ImageLoader) (p : ImageLoader) : Type 0 where
  pub before : List ImageLoader
  pub after : List ImageLoader
  pub stands : ps ≡ before ++ p ∷ after
  pub total : ℕ
  pub uses : Uses curr_used before total
  pub fits : Fits limit p total

abbrev pub Scanned : ℕ → ℕ → List ImageLoader → Option (Option ImageLoader) → Type 0
Scanned limit curr_used ps o =
    (o ≡ some none) ⊎ (p : ImageLoader) × (o ≡ some (some p)) × Chosen limit curr_used ps p

further :
    (limit curr_used usage : ℕ) (q : ImageLoader) (ps : List ImageLoader)
    (o : Option (Option ImageLoader))
    → memory_usage q ≡ some usage
    → Scanned limit ((curr_used + usage) % size_mod) ps o
    → Scanned limit curr_used (q ∷ ps) o
further limit curr_used usage q ps o u (inl e) = inl e
further limit curr_used usage q ps o u (inr (p, e, c)) = inr (
  p,
  e,
  record {
    before = q ∷ c.before;
    after = c.after;
    stands = ap (λ (l : List ImageLoader). q ∷ l) c.stands;
    total = c.total;
    uses = (usage, u, c.uses);
    fits = c.fits;
  },
)

scan_from-Scanned :
    (limit : ℕ) (fast : Bool) (curr_used : ℕ) (ps : List ImageLoader)
    → AllValid ps
    → Scanned limit curr_used ps (scan_from limit fast curr_used ps)
unfolding scan_from
scan_from-Scanned limit fast curr_used [] v = inl refl
scan_from-Scanned limit fast curr_used (p ∷ ps) v = elim (verdict p curr_used fast limit v.0) [
  | inl (e, f) ↦
      rw (e, scan_from)
        (inr (
          p,
          refl,
          record {
            before = [];
            after = ps;
            stands = refl;
            total = curr_used;
            uses = refl;
            fits = f;
          },
        ))
  | inr (e, usage, u) ↦
      rw (e, u, scan_from)
        (further limit curr_used usage p ps _ u
          (scan_from-Scanned limit fast ((curr_used + usage) % size_mod) ps v.1))
]

-- Where nothing is in use, whatever is not done is suitable.
first_suits :
    (p : ImageLoader) (limit : ℕ) (s : LoadState)
    → get_state p ≡ s
    → get_state p ≢ load_state_done
    → suitable_work_package p 0 true limit ≡ some true
unfolding suitable_work_package suitable_in enough_memory
first_suits p limit load_state_done e h = absurd (h e)
first_suits p limit load_state_unprocessed e h = rw (e, suitable_work_package) refl
first_suits p limit load_state_header e h = rw (e, suitable_work_package) refl
first_suits p limit load_state_loading e h = rw (e, suitable_work_package) refl

-- A work list whose loaders are valid: `FetchPackage`'s choice raises nothing, and if it is a
-- package, that stands in the list, is not done, and either has its header still unread, or is the
-- first to use memory, or fits in the limit together with all the packages before it.
pub locate_package-Scanned :
    (w : WorkList) → AllValid w.packages → Scanned w.memory_limit 0 w.packages (locate_package w)
unfolding locate_package scan_for_package second_scan
locate_package-Scanned w v = elim (scan_from-Scanned w.memory_limit true 0 w.packages v) [
  | inl e ↦ rw (e, locate_package) (scan_from-Scanned w.memory_limit false 0 w.packages v)
  | inr (p, e, c) ↦ rw (e, locate_package) (inr (p, refl, c))
]

-- The first package of the list, which is that of the current image: until it is done, it is the
-- choice, whatever the memory limit.
pub locate_package-first :
    (w : WorkList) (p : ImageLoader) (ps : List ImageLoader)
    → w.packages ≡ p ∷ ps
    → get_state p ≢ load_state_done
    → locate_package w ≡ some (some p)
unfolding locate_package scan_for_package second_scan scan_from
locate_package-first w p ps e h =
    rw (e, locate_package) (rw (first_suits p w.memory_limit (get_state p) refl h) refl)
