-- ===== src/Cache/Cacher/Priorities.antt =====
-- `apply_priorities`: the requests that the background thread is given.
use pictus.Base.{
  ℕ, ◌+◌, ◌≤◌, ◌<◌, ◌≡◌, ◌≢◌, refl, ◌∙◌, ap, inl, inr, Bool, true, false, Option, none, List, [],
  ◌∷◌, ◌++◌, arith, length, length-append, Bool-cases, ◌==◌, Option-cases, get_elem?-lt,
  get_elem?-ge, get_elem?-map,
}
use pictus.Base.Int.{ℤ}
use pictus.Cache.Queue.{WorkRequest, Call, cache_image, contains}
use pictus.Cache.State.{Cacher, ok, Returns, Returns-bind, Returns-mono, bind_ok}
use pictus.Cache.Cacher.{
  entry_image, current_image, peek_relative_request, entry_request, push_all, attempt_push,
  apply_priorities, peek_relative_index, is_zero, deltas, current_image_filename,
}
use pictus.Cache.Cacher.Frame.{
  SameList, SameList-refl, SameList-trans, SameList-length, SameList-image, SameList-calls,
  names_current, current_image_filename-SameList, Finds, entry_image-Returns, current_image-Returns,
  image_in,
}
use pictus.Cache.Cacher.Peek.{peek_bound, peek_empty}
use pictus.Cache.Cacher.Requests.{
  no_request, IsRequest, All, IsDistinct, All-SameList, All-append_one, IsDistinct-append_one,
}

abbrev Requests : Cacher → WorkRequest → Cacher → Type 0
Requests c r d = SameList c d × (d.calls ≡ c.calls) × IsRequest d r

entry_request-Returns :
    (i : ℕ) (c : Cacher) → i < length c.files → Returns (entry_request i c) (Requests c)
unfolding entry_request
entry_request-Returns i c h =
    Returns-bind (Finds i c) (Requests c) (entry_image i) _ c (entry_image-Returns i c h) λ p d f.
      let (e, g) = get_elem?-lt d.files i (rw (SameList-length f.0) h) in
      rw (g, Returns) (f.0, f.1, inr (i, f.2, f.3, get_elem?-map _ d.files i g))

peek_relative_request-Returns :
    (delta : ℤ) (c : Cacher)
    → is_zero delta ≡ false
    → Returns (peek_relative_request delta c) (Requests c)
unfolding peek_relative_request
peek_relative_request-Returns delta c z = elim (Option-cases (peek_relative_index delta c)) [
  | inl e ↦ rw (e, peek_relative_request) (SameList-refl c, refl, inl refl)
  | inr (i, e) ↦ rw (e, peek_relative_request) (entry_request-Returns i c (peek_bound delta c z e))
]

-- The queue so far: no request twice, each of them empty or of the list, and `head` first.
pub record IsQueue (head : WorkRequest) (c : Cacher) (queue : List WorkRequest) : Type 0 where
  pub distinct : IsDistinct queue
  pub of_list : All (IsRequest c) queue
  pub first : (rest : List WorkRequest) × (queue ≡ head ∷ rest)

attempt_push-IsQueue :
    (head : WorkRequest) (c : Cacher) (queue : List WorkRequest) (r : WorkRequest)
    → IsQueue head c queue
    → IsRequest c r
    → IsQueue head c (attempt_push queue r) × (length (attempt_push queue r) ≤ length queue + 1)
unfolding attempt_push
attempt_push-IsQueue head c queue r q h = elim (Bool-cases (contains queue r)) [
  | inl e ↦ rw e (q, omega arith)
  | inr e ↦
      let (rest, p) = q.first in
      rw e (
        record {
          distinct = IsDistinct-append_one queue r e q.distinct;
          of_list = All-append_one c queue r q.of_list h;
          first = (rest ++ r ∷ [], ap (λ (l : List WorkRequest). l ++ r ∷ []) p);
        },
        omega (arith, length-append queue (r ∷ [])),
      )
]

IsQueue-SameList :
    (head : WorkRequest) (c d : Cacher) (queue : List WorkRequest)
    → SameList c d
    → IsQueue head c queue
    → IsQueue head d queue
IsQueue-SameList head c d queue s q = record {
  distinct = q.distinct;
  of_list = All-SameList c d queue s q.of_list;
  first = q.first;
}

abbrev Pushes : ℕ → WorkRequest → Cacher → List WorkRequest → Cacher → Type 0
Pushes room head c queue d =
    SameList c d × (d.calls ≡ c.calls) × IsQueue head d queue × (length queue ≤ room)

push_all-Returns :
    (head : WorkRequest) (ds : List ℤ) (queue : List WorkRequest) (c : Cacher)
    → All (λ delta. is_zero delta ≡ false) ds
    → IsQueue head c queue
    → Returns (push_all ds queue c) (Pushes (length queue + length ds) head c)
unfolding push_all
push_all-Returns head [] queue c z q = (SameList-refl c, refl, q, omega arith)
push_all-Returns head (delta ∷ ds) queue c z q =
    Returns-bind (Requests c) (Pushes (length queue + length (delta ∷ ds)) head c)
      (peek_relative_request delta) _ c (peek_relative_request-Returns delta c z.0)
      λ r d h.
        let (pushed, room) =
          attempt_push-IsQueue head d queue r (IsQueue-SameList head c d queue h.0 q) h.2 in
        Returns-mono (Pushes (length (attempt_push queue r) + length ds) head d) _ _
          (push_all-Returns head ds (attempt_push queue r) d z.1 pushed)
          λ out e k. (SameList-trans h.0 k.0, k.1 ∙ h.1, k.2, omega arith)

-- What `apply_priorities` returns and does where there is a current image.
abbrev pub Prioritised : Cacher → Option ℕ → Cacher → Type 0
Prioritised c image d =
    SameList c d
    × (queue : List WorkRequest) × (d.calls ≡ c.calls ++ cache_image queue ∷ [])
    × IsQueue (record { image = image; filename = current_image_filename c }) d queue
    × (length queue ≤ 5)
    × (image_in d.files d.index ≡ image)
    × (image ≢ none)

deltas-nonzero : (flip : Bool) → All (λ delta. is_zero delta ≡ false) (deltas flip)
unfolding is_zero
deltas-nonzero true = (refl, (refl, (refl, (refl, tt))))
deltas-nonzero false = (refl, (refl, (refl, (refl, tt))))

length-deltas : (flip : Bool) → length (deltas flip) ≡ 4
length-deltas true = refl
length-deltas false = refl

-- In range it does not fail. It returns the image of the current position, which is made if it was
-- missing, and hands over one queue: the current image first, at most five requests, no request
-- twice, and each request either empty or the image and the name of one entry. The list of names,
-- the position and the settings stay, and so does every image that was made before.
pub apply_priorities-Returns :
    (flip : Bool) (c : Cacher)
    → c.index < length c.files
    → Returns (apply_priorities flip c) (Prioritised c)
unfolding apply_priorities contains
apply_priorities-Returns flip c h =
    Returns-bind (Finds c.index c) (Prioritised c) current_image _ c (current_image-Returns c h)
      λ image d f.
        Returns-bind (Pushes (1 + length (deltas flip)) (head image d) d) (Prioritised c)
          (push_all (deltas flip) (head image d ∷ [])) _ d
          (push_all-Returns (head image d) (deltas flip) (head image d ∷ []) d (deltas-nonzero flip)
            (single image d f))
          λ queue e k. finished image d queue e f k
  where
    head : Option ℕ → Cacher → WorkRequest
    head image d = record { image = image; filename = current_image_filename d }

    single :
        (image : Option ℕ) (d : Cacher)
        → Finds c.index c image d
        → IsQueue (head image d) d (head image d ∷ [])
    single image d f = record {
      distinct = (refl, tt);
      of_list = (
        inr (
          d.index,
          rw f.0.same_index f.2,
          f.3,
          names_current d (rw (SameList-length f.0, f.0.same_index) h),
        ),
        tt,
      );
      first = ([], refl);
    }

    finished :
        (image : Option ℕ) (d : Cacher) (queue : List WorkRequest) (e : Cacher)
        → Finds c.index c image d
        → Pushes (1 + length (deltas flip)) (head image d) d queue e
        → Prioritised c image (record e { calls = e.calls ++ cache_image queue ∷ [] })
    finished image d queue e f k =
        let s = SameList-trans f.0 k.0 in
        (
          SameList-calls _ s,
          queue,
          ap (λ (ks : List Call). ks ++ cache_image queue ∷ []) (k.1 ∙ f.1),
          IsQueue-SameList (head image c) e _ queue (SameList-calls _ (SameList-refl e))
              (rw (current_image_filename-SameList f.0) at k.2),
          omega (arith, k.3, length-deltas flip),
          rw s.same_index (SameList-image c.index image k.0 f.3 f.2),
          f.3,
        )

request-empty :
    (delta : ℤ) (c : Cacher)
    → is_zero delta ≡ false
    → length c.files ≡ 0
    → peek_relative_request delta c ≡ ok (no_request, c)
unfolding peek_relative_request
request-empty delta c z e = rw (peek_empty delta c z e, peek_relative_request)

push_all-empty :
    (ds : List ℤ) (c : Cacher)
    → All (λ delta. is_zero delta ≡ false) ds
    → length c.files ≡ 0
    → push_all ds (no_request ∷ []) c ≡ ok (no_request ∷ [], c)
unfolding push_all contains
push_all-empty [] c z e = refl
push_all-empty (delta ∷ ds) c z e =
    bind_ok (peek_relative_request delta) _ c (request-empty delta c z.0 e)
    ∙ push_all-empty ds c z.1 e

pub current_image-empty : (c : Cacher) → length c.files ≡ 0 → current_image c ≡ ok (none, c)
unfolding current_image
current_image-empty c e = elim (Bool-cases (length c.files == 0)) [
  | inl z ↦ rw (z, current_image)
  | inr z ↦ absurd (ground arith)
]

filename-empty : (c : Cacher) → length c.files ≡ 0 → current_image_filename c ≡ ""
unfolding current_image_filename
filename-empty c e = rw (get_elem?-ge c.files c.index (omega arith), current_image_filename)

-- In an empty list the only request is an empty one, and there is no image.
pub apply_priorities-empty :
    (flip : Bool) (c : Cacher)
    → length c.files ≡ 0
    → apply_priorities flip c
      ≡ ok (none, record c { calls = c.calls ++ cache_image (no_request ∷ []) ∷ [] })
unfolding apply_priorities
apply_priorities-empty flip c e =
    bind_ok current_image _ c (current_image-empty c e)
    ∙ rw (filename-empty c e) (
        bind_ok (push_all (deltas flip) (no_request ∷ [])) _ c
          (push_all-empty (deltas flip) c (deltas-nonzero flip) e))
