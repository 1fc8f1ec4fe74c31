-- ===== src/Illa/Pcx/Lines.antt =====
-- What a decoded scan line has.
use pictus.Base.{
  ℕ, zero, suc, ◌+◌, ◌-◌, ◌%◌, ◌^◌, ◌<◌, ◌≤◌, ◌≡◌, refl, sym, ap, ◌∙◌, arith, false, Bool-cases,
  inl, inr, List, [], ◌∷◌, ◌++◌, ltb, leb, if◌then◌else◌, replicate, length, take, length-append,
  length-replicate,
}
use mathlib.Core.List.{append-nil}
use pictus.Orz.StreamConverter.Round.{AllBytes}
use pictus.Illa.Pcx.{Layout, num_bytes, decode, bounded, decode_scanline, scan_buffer}

-- The bytes that the runs of a file stand for; a run that has no byte at the end stands for none.
abbrev pub expanded : List ℕ → List ℕ
expanded [] = []
expanded (b ∷ []) = if leb 192 b then [] else b ∷ []
expanded (b ∷ c ∷ rest) =
    let run = expanded rest in
    let raw = expanded (c ∷ rest) in if leb 192 b then replicate (b - 192) c ++ run else b ∷ raw

module _ {ℓ} {A : Type ℓ} where
  -- The front of a run and what follows it.
  take-run :
      (n k : ℕ) (a : A) (xs : List A)
      → k ≤ n
      → take n (replicate k a ++ xs) ≡ replicate k a ++ take (n - k) xs
  take-run n zero a xs h = ap (λ (m : ℕ). take m xs) (omega arith)
  take-run zero (suc k) a xs h = elim h [ ]
  take-run (suc n) (suc k) a xs h =
      let e : suc n - suc k ≡ n - k = omega arith in
      rw e (ap (◌∷◌ a) (take-run n k a xs (omega arith)))

  length-take : (n : ℕ) (xs : List A) → length (take n xs) ≤ n
  length-take zero xs = omega arith
  length-take (suc n) [] = omega arith
  length-take (suc n) (x ∷ xs) = omega (arith, length-take n xs)

  take-part : (n k : ℕ) (a : A) (xs : List A) → n ≤ k → take n (replicate k a ++ xs) ≡ replicate n a
  take-part zero k a xs h = refl
  take-part (suc n) zero a xs h = elim h [ ]
  take-part (suc n) (suc k) a xs h = ap (◌∷◌ a) (take-part n k a xs (omega arith))

bounded-le : (n k count : ℕ) → k ≤ n → count < 256 → k + bounded n k count ≤ n
bounded-le n k count h small = elim (Bool-cases (ltb n (count + k))) [
  | inl beyond ↦ rw beyond (omega arith)
  | inr within ↦ rw within (ground arith)
]

take_zero : (m : ℕ) (xs : List ℕ) → m ≡ 0 → take m xs ≡ []
take_zero m xs e = rw e refl

-- A run that is cut at the end of the line.
feeds :
    (n k count c : ℕ) (xs : List ℕ)
    → k ≤ n
    → count < 256
    → replicate (bounded n k count) c ++ take (n - (k + bounded n k count)) xs
      ≡ take (n - k) (replicate count c ++ xs)
feeds n k count c xs h small = elim (Bool-cases (ltb n (count + k))) [
  | inl beyond ↦
      let whole : (n - k) % 2 ^ 8 ≡ n - k = ground arith in
      rw (beyond, whole)
        (ap (λ (l : List ℕ). replicate (n - k) c ++ l)
            (take_zero (n - (k + (n - k))) xs (omega arith))
          ∙ append-nil (replicate (n - k) c)
          ∙ sym (take-part (n - k) count c xs (ground arith)))
  | inr within ↦
      let e : n - (k + count) ≡ n - k - count = omega arith in
      rw (within, e) (sym (take-run (n - k) count c xs (ground arith)))
]

take_nil : (m : ℕ) → take {A = ℕ} m [] ≡ []
take_nil zero = refl
take_nil (suc m) = refl

stops : (n k : ℕ) (bs : List ℕ) → ltb k n ≡ false → (decode n n k k bs).0 ≡ []
unfolding decode
stops n k [] full = refl
stops n k (b ∷ []) full = rw (full, decode) refl
stops n k (b ∷ c ∷ rest) full = rw (full, decode) refl

-- The line that `decode` writes from position `k` on.
decode-expanded :
    (n k : ℕ) (bs : List ℕ)
    → AllBytes bs
    → k ≤ n
    → (decode n n k k bs).0 ≡ take (n - k) (expanded bs)
unfolding decode
decode-expanded n k [] a h = sym (take_nil (n - k))
decode-expanded n k (b ∷ []) a h = elim (Bool-cases (ltb k n)) [
  | inr full ↦ stops n k (b ∷ []) full ∙ sym (take_zero (n - k) (expanded (b ∷ [])) (ground arith))
  | inl more ↦ elim (Bool-cases (leb 192 b)) [
    | inl cut ↦ rw (more, decode, cut) (sym (take_nil (n - k)))
    | inr one ↦
        rw (more, decode, one)
          (sym (append-nil (replicate (bounded n k 1) b))
            ∙ ap (λ (l : List ℕ). replicate (bounded n k 1) b ++ l)
                (sym (take_nil (n - (k + bounded n k 1))))
            ∙ feeds n k 1 b [] h (omega arith))
  ]
]
decode-expanded n k (b ∷ c ∷ rest) a h = elim (Bool-cases (ltb k n)) [
  | inr full ↦
      stops n k (b ∷ c ∷ rest) full
      ∙ sym (take_zero (n - k) (expanded (b ∷ c ∷ rest)) (ground arith))
  | inl more ↦ elim (Bool-cases (leb 192 b)) [
    | inl run ↦
        rw (more, decode, run)
          (ap (λ (l : List ℕ). replicate (bounded n k (b - 192)) c ++ l)
              (decode-expanded n (k + bounded n k (b - 192)) rest a.1.1
                (bounded-le n k (b - 192) h (omega (arith, a.0))))
            ∙ feeds n k (b - 192) c (expanded rest) h (omega (arith, a.0)))
    | inr one ↦
        rw (more, decode, one)
          (ap (λ (l : List ℕ). replicate (bounded n k 1) b ++ l)
              (decode-expanded n (k + bounded n k 1) (c ∷ rest) a.1
                (bounded-le n k 1 h (omega arith)))
            ∙ feeds n k 1 b (expanded (c ∷ rest)) h (omega arith))
  ]
]

-- DecodeScanline writes the bytes that the runs of the file stand for, up to the length of a line,
-- and no byte beyond the buffer; a run that goes on behind the end of the line is cut.
pub decode_scanline-expanded :
    (l : Layout) (bs : List ℕ)
    → AllBytes bs
    → ((decode_scanline l (num_bytes l) bs).0 ≡ take (num_bytes l) (expanded bs))
      × (length (decode_scanline l (num_bytes l) bs).0 ≤ num_bytes l)
      × (length (scan_buffer l bs).0 ≡ num_bytes l)
unfolding decode_scanline scan_buffer
decode_scanline-expanded l bs a = (
  line,
  short,
  omega (
    arith,
    short,
    length-append (decode (num_bytes l) (num_bytes l) 0 0 bs).0
        (replicate (num_bytes l - length (decode (num_bytes l) (num_bytes l) 0 0 bs).0) 0),
    length-replicate {A = ℕ} (num_bytes l - length (decode (num_bytes l) (num_bytes l) 0 0 bs).0) 0,
  ),
)
  where
    line : (decode (num_bytes l) (num_bytes l) 0 0 bs).0 ≡ take (num_bytes l) (expanded bs)
    line =
        decode-expanded (num_bytes l) 0 bs a (omega arith)
        ∙ ap (λ (m : ℕ). take m (expanded bs)) (omega arith)

    short : length (decode (num_bytes l) (num_bytes l) 0 0 bs).0 ≤ num_bytes l
    short = rw line (length-take (num_bytes l) (expanded bs))
