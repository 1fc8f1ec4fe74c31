-- ===== src/Cache/Queue.antt =====
-- ic_queue.cpp and imagecache_workrequest.cpp: the list of images that the cacher wants decoded.
-- An `Image*` is a number, and `none` is the null pointer. Each method holds the queue's mutex from
-- its first line to its last, so it is one step.
use mathlib.Core.Logic.{◌↔◌}
use Prim.Native.String.{String}
use text.Mathlib.Text.{◌==◌ as str_eq}
use text.Mathlib.TextEquality.{eq_iff}
use pictus.Base.{
  ℕ, ◌≡◌, refl, Bool, true, false, ◌&&◌, ◌||◌, Option, none, some, List, [], ◌∷◌, ◌++◌, arith, ◌==◌,
  if◌then◌else◌,
}

pub record WorkRequest : Type 0 where
  pub image : Option ℕ
  pub filename : String

pub ptr_eq : Option ℕ → Option ℕ → Bool
ptr_eq none none = true
ptr_eq none (some b) = false
ptr_eq (some a) none = false
ptr_eq (some a) (some b) = a == b

-- operator==(const WorkRequest&, const WorkRequest&)
unfoldable pub request_eq : WorkRequest → WorkRequest → Bool
unfolding ptr_eq
request_eq a b = ptr_eq a.image b.image && str_eq a.filename b.filename

-- `std::find` of a request, as a test.
unfoldable pub contains : List WorkRequest → WorkRequest → Bool
unfolding request_eq
contains [] r = false
contains (q ∷ qs) r = request_eq q r || contains qs r

pub data Call : Type 0 where
  cache_image : List WorkRequest → Call
  remove_image : Option ℕ → Call
  reset : Call

-- `m_workPackages.erase(std::find(…, image))`, where it is found.
unfoldable pub remove_first : Option ℕ → List WorkRequest → List WorkRequest
unfolding ptr_eq
remove_first p [] = []
remove_first p (r ∷ rs) = if ptr_eq r.image p then rs else r ∷ remove_first p rs

-- The methods of `ImageQueue`, on `m_workPackages`.
unfoldable pub step : List WorkRequest → Call → List WorkRequest
unfolding remove_first
step packages (cache_image images) = images
step packages (remove_image p) = remove_first p packages
step packages reset = []

unfoldable pub run : List WorkRequest → List Call → List WorkRequest
unfolding step
run packages [] = packages
run packages (c ∷ cs) = run (step packages c) cs

pub run-append :
    (packages : List WorkRequest) (cs ds : List Call)
    → run packages (cs ++ ds) ≡ run (run packages cs) ds
unfolding run
run-append packages [] ds = refl
run-append packages (c ∷ cs) ds = run-append (step packages c) cs ds

pub ptr_eq_iff : (a b : Option ℕ) → (ptr_eq a b ≡ true) ↔ (a ≡ b)
unfolding ptr_eq
ptr_eq_iff a b = ground arith

pub request_eq_iff : (a b : WorkRequest) → (request_eq a b ≡ true) ↔ (a ≡ b)
unfolding request_eq
request_eq_iff a b = ground (arith, eq_iff a.filename b.filename)
