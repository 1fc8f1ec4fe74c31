-- ===== src/Orz/FileReader/Streamer.antt =====
-- The byte streamer gives the bytes of the file, one behind the other.
use pictus.Base.{
  ℕ, zero, suc, ◌+◌, ◌-◌, ◌*◌, ◌/◌, ◌<◌, ◌≤◌, ◌≡◌, refl, ap, ◌∙◌, subst, arith, min, ◌==◌, true,
  false, Bool-cases, inl, inr, some, List, [], ◌∷◌, ◌++◌, ltb, leb, length, take, drop, get_elem?,
}
use pictus.Base.Int.{pos, pos-add}
use pictus.Orz.FileReader.{
  StreamMemory, bytes, Result, ok, err, critical_error, FileReaderByteStreamer, set_file_reader,
  refill, read_byte_by, read, perform_read, read_at, ◌>>=◌, cache_size, read_byte,
}

-- The bytes that are to come: those of the cache, and those of the file behind its position.
pub record Represents (s : FileReaderByteStreamer) (bs : List ℕ) : Type 0 where
  pub offset : ℕ
  pub at : s.reader.position ≡ pos offset
  pub in_file : offset ≤ length (bytes s.reader)
  pub opened : s.reader.is_open ≡ true
  pub in_cache : s.position ≤ length s.cache
  pub rest : drop s.position s.cache ++ drop offset (bytes s.reader) ≡ bs
  pub left : s.bytes_left ≡ length bs

module _ {ℓ} {A : Type ℓ} where
  drop-length : (xs : List A) → drop (length xs) xs ≡ []
  drop-length [] = refl
  drop-length (x ∷ xs) = drop-length xs

  drop-drop : (n k : ℕ) (xs : List A) → drop (n + k) xs ≡ drop k (drop n xs)
  drop-drop zero k xs = ap (λ (m : ℕ). drop m xs) (omega arith)
  drop-drop (suc n) zero [] = let e : suc n + 0 ≡ suc n = omega arith in rw e refl
  drop-drop (suc n) (suc k) [] = let e : suc n + suc k ≡ suc (n + suc k) = omega arith in rw e refl
  drop-drop (suc n) k (x ∷ xs) =
      let e : suc n + k ≡ suc (n + k) = omega arith in rw e (drop-drop n k xs)

  length-drop : (n : ℕ) (xs : List A) → length (drop n xs) ≡ length xs - n
  length-drop zero xs = omega arith
  length-drop (suc n) [] = omega arith
  length-drop (suc n) (x ∷ xs) = omega (arith, length-drop n xs)

  take-append-drop : (n : ℕ) (xs : List A) → take n xs ++ drop n xs ≡ xs
  take-append-drop zero xs = refl
  take-append-drop (suc n) [] = refl
  take-append-drop (suc n) (x ∷ xs) = ap (◌∷◌ x) (take-append-drop n xs)

  length-take : (n : ℕ) (xs : List A) → length (take n xs) ≡ min n (length xs)
  length-take zero xs = omega arith
  length-take (suc n) [] = omega arith
  length-take (suc n) (x ∷ xs) = omega (arith, length-take n xs)

  -- The front of what is left of a list.
  front_of_drop :
      (n : ℕ) (xs ys : List A) {b : A} {bs : List A}
      → n < length xs
      → drop n xs ++ ys ≡ b ∷ bs
      → (get_elem? xs n ≡ some b) × (drop (suc n) xs ++ ys ≡ bs)
  front_of_drop n [] ys h e = elim h [ ]
  front_of_drop zero (x ∷ xs) ys h e = (cc, cc)
  front_of_drop (suc n) (x ∷ xs) ys h e = front_of_drop n xs ys (omega arith) e

-- A byte of the cache.
fetch_cached :
    (s : FileReaderByteStreamer) (capacity b : ℕ) (bs : List ℕ)
    → Represents s (b ∷ bs)
    → s.position < length s.cache
    → (t : FileReaderByteStreamer) × (read_byte_by capacity s ≡ ok (b, t)) × Represents t bs
unfolding read_byte_by refill
fetch_cached s capacity b bs r h =
    let (front, behind) =
      front_of_drop s.position s.cache (drop r.offset (bytes s.reader)) h r.rest in
    let more : (s.bytes_left == 0) ≡ false = ground (arith, r.left) in
    let cached : (s.position == length s.cache) ≡ false = ground arith in
    (
      record s { position = s.position + 1; bytes_left = s.bytes_left - 1 },
      simp (more, cached, front) refl,
      record {
        offset = r.offset;
        at = r.at;
        in_file = r.in_file;
        opened = r.opened;
        in_cache = omega arith;
        rest = let e : s.position + 1 ≡ suc s.position = omega arith in rw e behind;
        left = omega (arith, r.left);
      },
    )

-- How many bytes there are behind `n`, up to `k`.
abbrev chunk : ℕ → ℕ → StreamMemory → ℕ
chunk k n r = min k (length (bytes r) - n)

-- What a read of items of one byte gives, inside of the file.
read_bytes :
    (k n : ℕ) (r : StreamMemory)
    → r.is_open ≡ true
    → r.position ≡ pos n
    → n < length (bytes r)
    → read 1 k r
      ≡ ok (
        (chunk k n r, take (chunk k n r) (drop n (bytes r))),
        record r { position = pos (n + chunk k n r) },
      )
unfolding read perform_read read_at
read_bytes k n r o e h =
    let inside : leb (length (bytes r) + 0) (n + 0) ≡ false = ground arith in
    let whole : (length (bytes r) - n) / 1 ≡ length (bytes r) - n = omega arith in
    let one : 1 * chunk k n r ≡ chunk k n r = omega arith in
    simp (o, e, inside, whole, one, pos-add) refl

-- A cache that is used up is filled again.
fetch_filled :
    (s : FileReaderByteStreamer) (capacity b : ℕ) (bs : List ℕ)
    → 0 < capacity
    → Represents s (b ∷ bs)
    → s.position ≡ length s.cache
    → (t : FileReaderByteStreamer) × (read_byte_by capacity s ≡ ok (b, t)) × Represents t bs
unfolding read_byte_by refill
fetch_filled s capacity b bs positive r h =
    let empty : drop s.position s.cache ≡ [] = rw h (drop-length s.cache) in
    let ahead : drop r.offset (bytes s.reader) ≡ b ∷ bs =
      subst (λ (l : List ℕ). l ++ drop r.offset (bytes s.reader) ≡ b ∷ bs) empty r.rest in
    let long = ap length ahead in
    let inside : r.offset < length (bytes s.reader) =
      omega (arith, long, length-drop r.offset (bytes s.reader)) in
    let n = chunk capacity r.offset s.reader in
    let cache = take n (drop r.offset (bytes s.reader)) in
    let size : 0 < length cache = omega (
      arith,
      length-take n (drop r.offset (bytes s.reader)),
      length-drop r.offset (bytes s.reader),
    ) in
    let whole : cache ++ drop n (drop r.offset (bytes s.reader)) ≡ b ∷ bs =
      take-append-drop n _ ∙ ahead in
    let (front, behind) =
      front_of_drop 0 cache (drop n (drop r.offset (bytes s.reader))) {b = b} {bs = bs}
        (omega (arith, size)) whole in
    let more : (s.bytes_left == 0) ≡ false = ground (arith, r.left) in
    let used : (s.position == length s.cache) ≡ true = ground (arith, h) in
    (
      record {
        cache = cache;
        position = 0 + 1;
        bytes_left = s.bytes_left - 1;
        reader = record s.reader { position = pos (r.offset + n) };
      },
      simp (more, used, read_bytes capacity r.offset s.reader r.opened r.at inside, front) refl,
      record {
        offset = r.offset + n;
        at = refl;
        in_file = omega arith;
        opened = r.opened;
        in_cache = omega (arith, size);
        rest =
            ap (λ (l : List ℕ). drop 1 cache ++ l) (drop-drop r.offset n (bytes s.reader)) ∙ behind;
        left = omega (arith, r.left);
      },
    )

read_byte_by-Represents :
    (capacity b : ℕ) (bs : List ℕ) (s : FileReaderByteStreamer)
    → 0 < capacity
    → Represents s (b ∷ bs)
    → (t : FileReaderByteStreamer) × (read_byte_by capacity s ≡ ok (b, t)) × Represents t bs
read_byte_by-Represents capacity b bs s positive r =
    elim (Bool-cases (s.position == length s.cache)) [
      | inl used ↦ fetch_filled s capacity b bs positive r (ground arith)
      | inr more ↦ fetch_cached s capacity b bs r (ground (arith, r.in_cache))
    ]

read_byte-Represents :
    (b : ℕ) (bs : List ℕ) (s : FileReaderByteStreamer)
    → Represents s (b ∷ bs)
    → (t : FileReaderByteStreamer) × (read_byte s ≡ ok (b, t)) × Represents t bs
unfolding read_byte
read_byte-Represents b bs s r = read_byte_by-Represents cache_size b bs s (omega arith) r

read_byte-no_bytes_left :
    (s : FileReaderByteStreamer) → Represents s [] → read_byte s ≡ err critical_error
unfolding read_byte read_byte_by
read_byte-no_bytes_left s r =
    let e : (s.bytes_left == 0) ≡ true = ground (arith, r.left) in rw e refl

-- `k` calls of ReadByte.
unfoldable pub read_bytes_one_by_one :
    ℕ → FileReaderByteStreamer → Result (List ℕ × FileReaderByteStreamer)
unfolding read_byte
read_bytes_one_by_one zero s = ok ([], s)
read_bytes_one_by_one (suc k) s =
    read_byte s >>= λ (b, t). read_bytes_one_by_one k t >>= λ (bs, u). ok (b ∷ bs, u)

set_file_reader-Represents :
    (n : ℕ) (r : StreamMemory)
    → r.is_open ≡ true
    → r.position ≡ pos n
    → n ≤ length (bytes r)
    → (s : FileReaderByteStreamer) × (set_file_reader r ≡ ok s) × Represents s (drop n (bytes r))
unfolding set_file_reader
set_file_reader-Represents n r o e h =
    let inside : ltb (length (bytes r)) n ≡ false = ground arith in
    (
      record { cache = []; position = 0; bytes_left = length (bytes r) - n; reader = r },
      simp (o, e, inside) refl,
      record {
        offset = n;
        at = e;
        in_file = h;
        opened = o;
        in_cache = omega arith;
        rest = refl;
        left = omega (arith, length-drop n (bytes r));
      },
    )

-- All the bytes that are left, and then the end.
read_all :
    (bs : List ℕ) (s : FileReaderByteStreamer)
    → Represents s bs
    → (t : FileReaderByteStreamer) × (read_bytes_one_by_one (length bs) s ≡ ok (bs, t))
      × (read_byte t ≡ err critical_error)
unfolding read_bytes_one_by_one
read_all [] s r = (s, refl, read_byte-no_bytes_left s r)
read_all (b ∷ bs) s r =
    let (t, first, r') = read_byte-Represents b bs s r in
    let (u, others, last) = read_all bs t r' in (u, rw (first, others) refl, last)

-- The streamer of an open reader gives, by one call of ReadByte for each, just the bytes of the
-- file from the reader's position on, and then raises.
pub streamer-reads_file :
    (n : ℕ) (r : StreamMemory)
    → r.is_open ≡ true
    → r.position ≡ pos n
    → n ≤ length (bytes r)
    → (s : FileReaderByteStreamer) × (t : FileReaderByteStreamer) × (set_file_reader r ≡ ok s)
      × (read_bytes_one_by_one (length (bytes r) - n) s ≡ ok (drop n (bytes r), t))
      × (read_byte t ≡ err critical_error)
streamer-reads_file n r o e h =
    let (s, set, represents) = set_file_reader-Represents n r o e h in
    let (t, all, last) = read_all (drop n (bytes r)) s represents in
    (
      s,
      t,
      set,
      subst (λ (k : ℕ). read_bytes_one_by_one k s ≡ ok (drop n (bytes r), t))
          (length-drop n (bytes r)) all,
      last,
    )
