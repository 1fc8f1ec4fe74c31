-- ===== src/Cache/Cacher.antt =====
-- imagecache.cpp and imagecache_fileentry.cpp: the list of files, the position in it and what is
-- asked of the background thread. The build is the one without _WIN32.
pub mod Moves
pub mod Edits
pub mod Peek
pub mod Frame
pub mod Requests
pub mod Priorities
pub mod Safety
pub mod Methods
pub mod Histories
pub mod Navigation
pub mod Removal
pub mod Sorting
pub mod Handover
use Prim.Native.String.{String}
use pictus.Base.{
  ℕ, suc, ◌+◌, ◌-◌, ◌%◌, ◌^◌, Bool, true, false, ◌&&◌, Option, none, some, List, [], ◌∷◌, ◌++◌,
  ◌==◌, ltb, leb, if◌then◌else◌, length, get_elem?, set,
}
use pictus.Base.Int.{ℤ, pos, negsuc, ◌+ℤ◌, ltb_ℤ}
use pictus.Cache.Queue.{WorkRequest, Call, contains, cache_image}
use pictus.Cache.State.{
  FileEntry, Cacher, M, ok, err, ◌>>=◌, ◌>>◌, pure, raise, gets, modify, out_of_range,
}

abbrev pub size_mod : ℕ
size_mod = 2 ^ 64

-- Conversions between `size_t` and `int`, with 64 and 32 bits.
unfoldable pub to_int : ℕ → ℤ
to_int n = let w = n % 2 ^ 32 in if ltb w (2 ^ 31) then pos w else negsuc (2 ^ 32 - w - 1)

unfoldable pub to_size : ℤ → ℕ
to_size (pos n) = n % size_mod
to_size (negsuc n) = (size_mod - suc n % size_mod) % size_mod

-- `--m_index`
unfoldable pub pred_size : ℕ → ℕ
pred_size n = (n + size_mod - 1) % size_mod

abbrev pub image_count : Cacher → ℕ
image_count c = length c.files

abbrev pub new_entry : String → FileEntry
new_entry filename = record { fullname = filename; image = none }

pub init : Cacher
init = record {
  files = [];
  index = 0;
  went_forward = true;
  wrap_around = false;
  codecs = none;
  next_id = 0;
  calls = [];
}

-- FileEntry::Image, of the entry at `i`: the image is made when it is first asked for.
image_of : ℕ → FileEntry → M (Option ℕ)
image_of i e c = elim e.image [
  | some p ↦ ok (some p, c)
  | none ↦ ok (
    some c.next_id,
    record c {
      files = set c.files i (record e { image = some c.next_id });
      next_id = suc c.next_id;
    },
  )
]

pub entry_image : ℕ → M (Option ℕ)
unfolding image_of
entry_image i c = elim (get_elem? c.files i) [ none ↦ err out_of_range | some e ↦ image_of i e c ]

pub current_image : M (Option ℕ)
current_image c = if image_count c == 0 then ok (none, c) else entry_image c.index c

unfoldable pub current_image_filename : Cacher → String
current_image_filename c = elim (get_elem? c.files c.index) [ none ↦ "" | some e ↦ e.fullname ]

-- The two tests that bring a position back into the list when it wraps around.
wrap_low : Bool → ℕ → ℤ → ℤ
wrap_low wrap count p =
    if ltb_ℤ p (pos 0) && wrap then to_int ((count + to_size p) % size_mod) else p

wrap_high : Bool → ℕ → ℤ → ℤ
wrap_high wrap count p =
    if leb count (to_size p) && wrap then to_int ((to_size p + size_mod - count) % size_mod) else p

in_list : ℕ → ℤ → Option ℕ
in_list count p =
    if ltb_ℤ p (pos 0) then none else if leb count (to_size p) then none else some (to_size p)

pub is_zero : ℤ → Bool
is_zero (pos n) = n == 0
is_zero (negsuc n) = false

pub peek_relative_index : ℤ → Cacher → Option ℕ
unfolding wrap_low wrap_high in_list is_zero
peek_relative_index delta c =
    if is_zero delta
    then some c.index
    else in_list (image_count c) (
        wrap_high c.wrap_around (image_count c)
          (wrap_low c.wrap_around (image_count c) (to_int c.index +ℤ delta)))

entry_request : ℕ → M WorkRequest
entry_request i = do
  image ← entry_image i
  e ← gets (λ c. get_elem? c.files i)
  elim e [
    | none ↦ raise out_of_range
    | some e ↦ pure (record { image = image; filename = e.fullname })
  ]

pub peek_relative_request : ℤ → M WorkRequest
unfolding entry_request
peek_relative_request delta c = elim (peek_relative_index delta c) [
  | none ↦ ok (record { image = none; filename = "" }, c)
  | some i ↦ entry_request i c
]

pub attempt_push : List WorkRequest → WorkRequest → List WorkRequest
attempt_push queue r = if contains queue r then queue else queue ++ r ∷ []

-- The neighbours that are asked for, in the order of their priority.
pub push_all : List ℤ → List WorkRequest → M (List WorkRequest)
unfolding attempt_push
push_all [] queue = pure queue
push_all (delta ∷ ds) queue = do r ← peek_relative_request delta; push_all ds (attempt_push queue r)

abbrev pub deltas : Bool → List ℤ
deltas false = pos 1 ∷ negsuc 0 ∷ pos 2 ∷ negsuc 1 ∷ []
deltas true = negsuc 0 ∷ pos 1 ∷ negsuc 1 ∷ pos 2 ∷ []

abbrev pub call : Call → M (Unit {0})
call k = modify (λ c. record c { calls = c.calls ++ k ∷ [] })

pub apply_priorities : Bool → M (Option ℕ)
apply_priorities flip = do
  image ← current_image
  name ← gets current_image_filename
  queue ← push_all (deltas flip) (record { image = image; filename = name } ∷ [])
  call (cache_image queue)
  pure image
