-- ===== src/Cache/Cacher/Requests.antt =====
-- Lists of requests: what they are for, and that none comes twice.
use pictus.Base.{
  ℕ, ◌≡◌, ◌≢◌, refl, ◌⊎◌, inl, inr, false, ◌||◌, none, some, List, [], ◌∷◌, ◌++◌, arith, get_elem?,
}
use pictus.Cache.Queue.{WorkRequest, contains, request_eq, request_eq_iff}
use pictus.Cache.State.{Cacher}
use pictus.Cache.Cacher.Frame.{SameList, SameList-image, image_in, names}

abbrev pub no_request : WorkRequest
no_request = record { image = none; filename = "" }

-- A request is empty, or it is for the image and the name of an entry of the list.
abbrev pub IsRequest : Cacher → WorkRequest → Type 0
IsRequest c r =
    (r ≡ no_request)
    ⊎ ((i : ℕ) × (image_in c.files i ≡ r.image)
        × (r.image ≢ none)
        × (get_elem? (names c) i ≡ some r.filename))

abbrev pub All {ℓ κ} : {A : Type ℓ} → (A → Type κ) → List A → Type κ
All P [] = Unit
All P (x ∷ xs) = P x × All P xs

-- No request equals a later one.
abbrev pub IsDistinct : List WorkRequest → Type 0
IsDistinct [] = Unit
IsDistinct (r ∷ rs) = (contains rs r ≡ false) × IsDistinct rs

pub IsRequest-SameList :
    (c d : Cacher) (r : WorkRequest) → SameList c d → IsRequest c r → IsRequest d r
IsRequest-SameList c d r s (inl e) = inl e
IsRequest-SameList c d r s (inr (i, e, h, n)) =
    inr (i, SameList-image i r.image s h e, h, rw s.same_names n)

pub All-SameList :
    (c d : Cacher) (rs : List WorkRequest)
    → SameList c d
    → All (IsRequest c) rs
    → All (IsRequest d) rs
All-SameList c d [] s h = tt
All-SameList c d (r ∷ rs) s h = (IsRequest-SameList c d r s h.0, All-SameList c d rs s h.1)

pub All-append_one :
    (c : Cacher) (rs : List WorkRequest) (r : WorkRequest)
    → All (IsRequest c) rs
    → IsRequest c r
    → All (IsRequest c) (rs ++ r ∷ [])
All-append_one c [] r h k = (k, tt)
All-append_one c (q ∷ qs) r h k = (h.0, All-append_one c qs r h.1 k)

pub contains-append_one :
    (qs : List WorkRequest) (q r : WorkRequest)
    → contains (qs ++ r ∷ []) q ≡ (contains qs q || request_eq r q)
unfolding contains
contains-append_one [] q r = ground arith
contains-append_one (p ∷ ps) q r = ground (arith, contains-append_one ps q r)

pub request_eq_symm : (q r : WorkRequest) → request_eq q r ≡ false → request_eq r q ≡ false
request_eq_symm q r h = ground (arith, request_eq_iff q r, request_eq_iff r q)

pub IsDistinct-append_one :
    (qs : List WorkRequest) (r : WorkRequest)
    → contains qs r ≡ false
    → IsDistinct qs
    → IsDistinct (qs ++ r ∷ [])
unfolding contains
IsDistinct-append_one [] r h k = (refl, tt)
IsDistinct-append_one (q ∷ qs) r h k = (
  ground (arith, contains-append_one qs q r, request_eq_symm q r, k.0),
  IsDistinct-append_one qs r (ground arith) k.1,
)
