-- ===== src/Illa/PackBits/Packets.antt =====
-- The loop of loadRleStream of c_psd.cpp against the packets that a line consists of.
use pictus.Base.{
  ℕ, zero, suc, ◌+◌, ◌-◌, ◌≤◌, ◌<◌, ◌≡◌, refl, ap, ◌∙◌, arith, ◌⊎◌, inl, Option, none, some,
  get_elem?, ◌==◌, true, false, List, [], ◌∷◌, ◌++◌, take, drop, replicate, length, length-append,
  length-replicate,
}
use native.Mathlib.Decide.{ℕ_discrete}
use mathlib.Core.List.{append_assoc, append-nil}
use pictus.Illa.PackBits.{Unpacked, ends, behind, unpack, Lines, load_rle_stream}

pub data Packet : Type 0 where
  literal : List ℕ → Packet
  run : ℕ → ℕ → Packet
  padding : Packet

abbrev pub IsPacket : Packet → Type 0
IsPacket (literal bs) = (1 ≤ length bs) × (length bs ≤ 128)
IsPacket (run n b) = (2 ≤ n) × (n ≤ 128)
IsPacket padding = Unit

abbrev pub AllPackets : List Packet → Type 0
AllPackets [] = Unit
AllPackets (p ∷ ps) = IsPacket p × AllPackets ps

-- The bytes that stand in the file, and those that they stand for.
abbrev pub encoded : List Packet → List ℕ
encoded [] = []
encoded (literal bs ∷ ps) = (length bs - 1) ∷ (bs ++ encoded ps)
encoded (run n b ∷ ps) = (257 - n) ∷ b ∷ encoded ps
encoded (padding ∷ ps) = 128 ∷ encoded ps

abbrev pub expanded : List Packet → List ℕ
expanded [] = []
expanded (literal bs ∷ ps) = bs ++ expanded ps
expanded (run n b ∷ ps) = replicate n b ++ expanded ps
expanded (padding ∷ ps) = expanded ps

length-take : (n : ℕ) (xs : List ℕ) → n ≤ length xs → length (take n xs) ≡ n
length-take zero xs h = refl
length-take (suc n) [] h = absurd (omega arith)
length-take (suc n) (x ∷ xs) h = ap suc (length-take n xs (omega arith))

-- For any bytes and any fuel the loop writes no more bytes than are missing, and all of them if it
-- returns true.
pub unpack-bounded :
    (fuel : ℕ) (stream : List ℕ) (missing : ℕ)
    → (length (unpack fuel stream missing).dest ≤ missing)
      × ((unpack fuel stream missing).is_loaded ≡ true
          → length (unpack fuel stream missing).dest ≡ missing)
unfolding unpack
unpack-bounded zero stream missing = ground arith
unpack-bounded (suc fuel) [] missing = ground arith
unpack-bounded (suc fuel) (c ∷ []) missing = ground arith
unpack-bounded (suc fuel) (c ∷ b ∷ rest) missing = ground (
  arith,
  unpack-bounded fuel (drop (c + 1) (b ∷ rest)) (missing - (c + 1)),
  unpack-bounded fuel rest (missing - (257 - c)),
  unpack-bounded fuel (b ∷ rest) missing,
  length-take (c + 1) (b ∷ rest),
  length-replicate (257 - c) b,
  length-append (take (c + 1) (b ∷ rest))
      (unpack fuel (drop (c + 1) (b ∷ rest)) (missing - (c + 1))).dest,
  length-append (replicate (257 - c) b) (unpack fuel rest (missing - (257 - c))).dest,
)

take-append : (xs ys : List ℕ) (n : ℕ) → n ≡ length xs → take n (xs ++ ys) ≡ xs
take-append [] ys zero h = refl
take-append [] ys (suc n) h = absurd (omega arith)
take-append (x ∷ xs) ys zero h = absurd (omega arith)
take-append (x ∷ xs) ys (suc n) h = ap (◌∷◌ x) (take-append xs ys n (omega arith))

drop-append : (xs ys : List ℕ) (n : ℕ) → n ≡ length xs → drop n (xs ++ ys) ≡ ys
drop-append [] ys zero h = refl
drop-append [] ys (suc n) h = absurd (omega arith)
drop-append (x ∷ xs) ys zero h = absurd (omega arith)
drop-append (x ∷ xs) ys (suc n) h = drop-append xs ys n (omega arith)

full_line : (fuel : ℕ) (stream : List ℕ) → unpack fuel stream 0 ≡ ends true
unfolding unpack
full_line zero stream = refl
full_line (suc fuel) [] = refl
full_line (suc fuel) (c ∷ []) = refl
full_line (suc fuel) (c ∷ b ∷ rest) = refl

expanded_empty : (xs : List ℕ) → length xs ≡ 0 → xs ≡ []
expanded_empty [] h = refl
expanded_empty (x ∷ xs) h = absurd (omega arith)

encoded-pos : (ps : List Packet) → 0 < length (expanded ps) → 0 < length (encoded ps)
encoded-pos [] h = absurd (omega arith)
encoded-pos (literal bs ∷ ps) h = omega arith
encoded-pos (run n b ∷ ps) h = omega arith
encoded-pos (padding ∷ ps) h = omega arith

abbrev pub loaded : List ℕ → Unpacked
loaded bs = record { is_loaded = true; dest = bs }

literal_turn :
    (fuel m b : ℕ) (bs rest : List ℕ)
    → length bs ≤ 127
    → unpack (suc fuel) (length bs ∷ b ∷ (bs ++ rest)) (suc (length bs + m))
      ≡ behind (b ∷ bs) (unpack fuel rest m)
unfolding unpack
literal_turn fuel m b bs rest h =
    let e : suc (length bs + m) - (length bs + 1) ≡ m = omega arith in
    let t = take-append (b ∷ bs) rest (length bs + 1) (omega arith) in
    let d = drop-append (b ∷ bs) rest (length bs + 1) (omega arith) in
    let l = length-append bs rest in ground (arith, e, t, d, l)

run_turn :
    (fuel m n b : ℕ) (rest : List ℕ)
    → 2 ≤ n
    → n ≤ 128
    → unpack (suc fuel) ((257 - n) ∷ b ∷ rest) (n + m) ≡ behind (replicate n b) (unpack fuel rest m)
unfolding unpack
run_turn fuel m n b rest h l =
    let e : 257 - (257 - n) ≡ n = omega arith in
    let f : n + m - n ≡ m = omega arith in ground (arith, e, f)

padding_turn :
    (fuel m : ℕ) (rest : List ℕ)
    → 0 < length rest
    → 0 < m
    → unpack (suc fuel) (128 ∷ rest) m ≡ unpack fuel rest m
unfolding unpack
padding_turn fuel m [] h l = absurd (omega arith)
padding_turn fuel m (b ∷ rest) h l = ground arith

-- A line of packets of 1 to 128 bytes or 2 to 128 times one byte, with padding anywhere, whatever follows
-- it: the loop returns true and writes just the bytes that the packets stand for.
pub unpack-encoded :
    (ps : List Packet) (rest : List ℕ) (fuel : ℕ)
    → AllPackets ps
    → length (encoded ps) ≤ fuel
    → unpack fuel (encoded ps ++ rest) (length (expanded ps)) ≡ loaded (expanded ps)
unpack-encoded [] rest fuel v h = full_line fuel rest
unpack-encoded (literal bs ∷ ps) rest zero v h = absurd (omega arith)
unpack-encoded (run n b ∷ ps) rest zero v h = absurd (omega arith)
unpack-encoded (padding ∷ ps) rest zero v h = absurd (omega arith)
unpack-encoded (literal [] ∷ ps) rest (suc fuel) (v, vs) h = absurd (omega arith)
unpack-encoded (literal (b ∷ bs) ∷ ps) rest (suc fuel) (v, vs) h =
    let l = length-append bs (encoded ps) in
    let ih = unpack-encoded ps rest fuel vs (omega arith) in
    let c : suc (length bs) - 1 ≡ length bs = omega arith in
    rw
      (
        c,
        append_assoc bs (encoded ps) rest,
        length-append bs (expanded ps),
        literal_turn fuel (length (expanded ps)) b bs (encoded ps ++ rest) (omega arith),
        ih,
      )
      refl
unpack-encoded (run n b ∷ ps) rest (suc fuel) (v, vs) h =
    let ih = unpack-encoded ps rest fuel vs (omega arith) in
    rw
      (
        length-append (replicate n b) (expanded ps),
        length-replicate n b,
        run_turn fuel (length (expanded ps)) n b (encoded ps ++ rest) v.0 v.1,
        ih,
      )
      refl
unpack-encoded (padding ∷ ps) rest (suc fuel) (v, vs) h =
    elim (ℕ_discrete (length (expanded ps)) 0) [
      | yes z ↦
          rw (expanded_empty (expanded ps) z) (full_line (suc fuel) (128 ∷ (encoded ps ++ rest)))
      | no z ↦
          padding_turn fuel (length (expanded ps)) (encoded ps ++ rest)
            (let l = encoded-pos ps (omega arith) in
              let k = length-append (encoded ps) rest in omega arith)
            (omega arith)
          ∙ unpack-encoded ps rest fuel vs (omega arith)
    ]

-- For any lengths, position and file, loadRleStream writes no more than `num_bytes` bytes, and just as many
-- if it returns true.
pub load_rle_stream-bounded :
    (num_bytes : ℕ) (l : Lines)
    → (length (load_rle_stream num_bytes l).0.dest ≤ num_bytes)
      × (((load_rle_stream num_bytes l).0.is_loaded ≡ false)
          ⊎ (length (load_rle_stream num_bytes l).0.dest ≡ num_bytes))
unfolding load_rle_stream
load_rle_stream-bounded num_bytes l =
    by_length (get_elem? l.rle_scanline_length l.current_rle_stream_index) refl
  where
    by_length :
        (o : Option ℕ)
        → get_elem? l.rle_scanline_length l.current_rle_stream_index ≡ o
        → (length (load_rle_stream num_bytes l).0.dest ≤ num_bytes)
          × (((load_rle_stream num_bytes l).0.is_loaded ≡ false)
              ⊎ (length (load_rle_stream num_bytes l).0.dest ≡ num_bytes))
    by_length none e = rw (load_rle_stream, e) (omega arith, inl refl)
    by_length (some n) e =
        rw (load_rle_stream, e) (ground (arith, unpack-bounded n (take n l.file) num_bytes))

-- A line of packets, as long as its entry says, that stand for `num_bytes` bytes: loadRleStream returns true
-- with those bytes, and moves on to the next line and to the bytes behind.
pub load_rle_stream-encoded :
    (ps : List Packet) (more : List ℕ) (l : Lines)
    → AllPackets ps
    → get_elem? l.rle_scanline_length l.current_rle_stream_index ≡ some (length (encoded ps))
    → l.file ≡ encoded ps ++ more
    → load_rle_stream (length (expanded ps)) l ≡ (
      loaded (expanded ps),
      record l { current_rle_stream_index = l.current_rle_stream_index + 1; file = more },
    )
unfolding load_rle_stream
load_rle_stream-encoded ps more l v e f =
    let t : take (length (encoded ps)) l.file ≡ encoded ps =
      rw f (take-append (encoded ps) more (length (encoded ps)) refl) in
    let d : drop (length (encoded ps)) l.file ≡ more =
      rw f (drop-append (encoded ps) more (length (encoded ps)) refl) in
    let s : (length (encoded ps) == length (encoded ps)) ≡ true = ground arith in
    let u : unpack (length (encoded ps)) (encoded ps) (length (expanded ps))
        ≡ loaded (expanded ps) =
      rw append-nil at (unpack-encoded ps [] (length (encoded ps)) v (omega arith)) in
    rw (load_rle_stream, e, t, d, s, u) refl
