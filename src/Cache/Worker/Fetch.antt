-- ===== src/Cache/Worker/Fetch.antt =====
-- `FetchPackage` and `LocatePackage`: the position of the package, and what is found there.
use pictus.Base.{
  ℕ, suc, ◌+◌, ◌%◌, ◌<◌, ◌≡◌, refl, ap, ◌∙◌, arith, true, false, ◌⊎◌, inl, inr, Option, none, some,
  List, [], ◌∷◌, length, Bool,
}
use pictus.Cache.Cacher.{size_mod}
use pictus.Cache.Loader.{ImageLoader}
use pictus.Cache.WorkList.{WorkList}
use pictus.Cache.WorkList.Choice.{AllValid, verdict}
use pictus.Cache.Worker.{scan_index, scan_again, locate_index}

-- A position of the packages behind the first `i`, or none.
abbrev pub Positioned : ℕ → List ImageLoader → Option (Option ℕ) → Type 0
Positioned i ps o = (o ≡ some none) ⊎ (k : ℕ) × (o ≡ some (some (i + k))) × (k < length ps)

moved :
    (i : ℕ) (p : ImageLoader) (ps : List ImageLoader) (o : Option (Option ℕ))
    → Positioned (i + 1) ps o
    → Positioned i (p ∷ ps) o
moved i p ps o (inl e) = inl e
moved i p ps o (inr (k, e, h)) =
    inr (suc k, e ∙ ap (λ (n : ℕ). some (some n)) (omega arith), omega arith)

scan_index-Positioned :
    (limit : ℕ) (fast : Bool) (curr_used i : ℕ) (ps : List ImageLoader)
    → AllValid ps
    → Positioned i ps (scan_index limit fast curr_used i ps)
unfolding scan_index
scan_index-Positioned limit fast curr_used i [] v = inl refl
scan_index-Positioned limit fast curr_used i (p ∷ ps) v =
    elim (verdict p curr_used fast limit v.0) [
      | inl (e, f) ↦
          rw (e, scan_index) (inr (0, ap (λ (n : ℕ). some (some n)) (omega arith), omega arith))
      | inr (e, usage, u) ↦
          rw (e, u, scan_index)
            (moved i p ps _
              (scan_index-Positioned limit fast ((curr_used + usage) % size_mod) (i + 1) ps v.1))
    ]

-- With valid loaders, a position of the list or none.
pub locate_index-Positioned :
    (w : WorkList) → AllValid w.packages → Positioned 0 w.packages (locate_index w)
unfolding locate_index scan_again
locate_index-Positioned w v = elim (scan_index-Positioned w.memory_limit true 0 0 w.packages v) [
  | inl e ↦ rw (e, locate_index) (scan_index-Positioned w.memory_limit false 0 0 w.packages v)
  | inr (k, e, h) ↦ rw (e, locate_index) (inr (k, refl, h))
]
