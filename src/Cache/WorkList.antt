-- ===== src/Cache/WorkList.antt =====
-- ic_worklist.cpp and ic_workpackage.cpp: the packages of the background thread, in the order of
-- their priority, and the choice of the next one. A package of the list always has a loader, and no
-- two share one, so a package is its loader.
pub mod Choice
pub mod Rebuilt
use Prim.Native.String.{String}
use pictus.Base.{
  ℕ, ◌+◌, ◌%◌, ◌==◌, Bool, true, false, ◌&&◌, ◌||◌, not, Option, none, some, List, [], ◌∷◌, ◌++◌,
  ltb, if◌then◌else◌,
}
use pictus.Cache.Queue.{WorkRequest, ptr_eq}
use pictus.Cache.Cacher.{size_mod}
use pictus.Cache.Loader.{
  ImageLoader, LoadState, load_state_unprocessed, load_state_header, load_state_loading,
  load_state_done, get_state, memory_requirements, fast_pass_finished, new_loader, deallocate,
  allow_fast_skip,
}

pub data WorkOperation : Type 0 where
  wo_undefined wo_load_image wo_done : WorkOperation

-- `has_store` is whether `m_cfs` is set.
pub record WorkList : Type 0 where
  pub packages : List ImageLoader
  pub memory_limit : ℕ
  pub new_memory_limit : ℕ
  pub has_store : Bool

-- A result `none` is an exception.
infixl 5 ◌>>=◌
abbrev pub ◌>>=◌ {ℓ κ} : {A : Type ℓ} {B : Type κ} → Option A → (A → Option B) → Option B
none >>= f = none
some a >>= f = f a

unfoldable pub operation_in : LoadState → WorkOperation
operation_in load_state_done = wo_done
operation_in load_state_unprocessed = wo_load_image
operation_in load_state_header = wo_load_image
operation_in load_state_loading = wo_load_image

unfoldable pub operation : ImageLoader → WorkOperation
unfolding operation_in
operation p = operation_in (get_state p)

unfoldable pub memory_usage_in : LoadState → ImageLoader → Option ℕ
memory_usage_in load_state_unprocessed p = none
memory_usage_in load_state_header p = memory_requirements p
memory_usage_in load_state_loading p = memory_requirements p
memory_usage_in load_state_done p = memory_requirements p

unfoldable pub memory_usage : ImageLoader → Option ℕ
unfolding memory_usage_in
memory_usage p = memory_usage_in (get_state p) p

unfoldable pub fast_pass : ImageLoader → Bool
fast_pass p = not (fast_pass_finished p)

-- The end of `SuitableWorkPackage`, for a package that has its header.
unfoldable pub enough_memory : ImageLoader → ℕ → Bool → ℕ → Option Bool
unfolding memory_usage fast_pass
enough_memory p curr_used fast limit =
    if curr_used == 0
    then some true
    else if fast && not (fast_pass p)
    then some false
    else (memory_usage p >>= λ usage. some (ltb ((curr_used + usage) % size_mod) limit))

-- What `SuitableWorkPackage` asks of a package in each state.
unfoldable pub suitable_in : LoadState → ImageLoader → ℕ → Bool → ℕ → Option Bool
unfolding enough_memory
suitable_in load_state_done p curr_used fast limit = some false
suitable_in load_state_unprocessed p curr_used fast limit = some true
suitable_in load_state_header p curr_used fast limit = enough_memory p curr_used fast limit
suitable_in load_state_loading p curr_used fast limit = enough_memory p curr_used fast limit

unfoldable pub suitable_work_package : ImageLoader → ℕ → Bool → ℕ → Option Bool
unfolding suitable_in
suitable_work_package p curr_used fast limit = suitable_in (get_state p) p curr_used fast limit

-- The loop of `ScanForPackage`.
unfoldable pub scan_from : ℕ → Bool → ℕ → List ImageLoader → Option (Option ImageLoader)
unfolding suitable_work_package memory_usage
scan_from limit fast curr_used [] = some none
scan_from limit fast curr_used (p ∷ ps) = suitable_work_package p curr_used fast limit >>= λ suits.
    elim suits [
      | true ↦ some (some p)
      | false ↦ memory_usage p >>= λ usage. scan_from limit fast ((curr_used + usage) % size_mod) ps
    ]

unfoldable pub scan_for_package : WorkList → Bool → Option (Option ImageLoader)
unfolding scan_from
scan_for_package w fast = scan_from w.memory_limit fast 0 w.packages

unfoldable pub second_scan : WorkList → Option ImageLoader → Option (Option ImageLoader)
unfolding scan_for_package
second_scan w (some p) = some (some p)
second_scan w none = scan_for_package w false

-- An empty list has no package in either scan.
unfoldable pub locate_package : WorkList → Option (Option ImageLoader)
unfolding scan_for_package second_scan
locate_package w = scan_for_package w true >>= second_scan w

unfoldable pub set_memory_limit : ℕ → WorkList → WorkList
set_memory_limit limit w = record w { new_memory_limit = limit }

-- `std::find(m_workPackages.begin(), m_workPackages.end(), image)`, and the list without it.
unfoldable pub find_package : Option ℕ → List ImageLoader → Option ImageLoader
find_package image [] = none
find_package image (p ∷ ps) = if ptr_eq p.image image then some p else find_package image ps

unfoldable pub erase_package : Option ℕ → List ImageLoader → List ImageLoader
erase_package image [] = []
erase_package image (p ∷ ps) = if ptr_eq p.image image then ps else p ∷ erase_package image ps

unfoldable pub take_old : Bool → WorkRequest → Option ImageLoader → Option ImageLoader
take_old has_store r (some p) = some p
take_old has_store r none = if has_store then some (new_loader r.image r.filename) else none

-- The first loop of `Rebuild`: the packages of the requests, and the old ones that are left over.
unfoldable pub collect :
    Bool → List WorkRequest → List ImageLoader → Option (List ImageLoader × List ImageLoader)
unfolding find_package erase_package take_old
collect has_store [] old = some ([], old)
collect has_store (r ∷ rs) old = elim r.image [
  | none ↦ collect has_store rs old
  | some i ↦ take_old has_store r (find_package (some i) old) >>= λ p.
      collect has_store rs (erase_package (some i) old) >>= λ (ps, rest). some (p ∷ ps, rest)
]

-- Whether the package holds memory: it is done, or it is loading.
unfoldable pub is_allocated : LoadState → Bool
is_allocated load_state_done = true
is_allocated load_state_loading = true
is_allocated load_state_header = false
is_allocated load_state_unprocessed = false

-- The second loop of `Rebuild`: what does not fit is given up, the first package never.
unfoldable pub limit_from : ℕ → Bool → ℕ → List ImageLoader → Option (List ImageLoader)
unfolding is_allocated memory_usage
limit_from limit first curr_used [] = some []
limit_from limit first curr_used (p ∷ ps) =
    let q = allow_fast_skip first p in
    elim (is_allocated (get_state q)) [
      | false ↦ limit_from limit false curr_used ps >>= λ qs. some (q ∷ qs)
      | true ↦ memory_usage q >>= λ usage.
          elim (not first && ltb limit ((curr_used + usage) % size_mod)) [
            | true ↦ limit_from limit false curr_used ps >>= λ qs. some (deallocate q ∷ qs)
            | false ↦
                limit_from limit false ((curr_used + usage) % size_mod) ps >>= λ qs. some (q ∷ qs)
          ]
    ]

-- The images of the left-over packages are deallocated; their loaders are not used again.
unfoldable pub rebuild : List WorkRequest → WorkList → Option WorkList
unfolding collect limit_from
rebuild images_to_process w =
    collect w.has_store images_to_process w.packages >>= λ (packages, left_over).
    limit_from w.new_memory_limit true 0 packages >>= λ limited.
    some (record w { packages = limited; memory_limit = w.new_memory_limit })
