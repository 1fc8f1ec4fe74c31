-- ===== src/Orz/BitConvert/Words.antt =====
-- `ConvertToBytes` at every depth.
use pictus.Base.{
  ℕ, zero, suc, ◌+◌, ◌*◌, ◌^◌, ◌<◌, ◌≤◌, ◌≡◌, refl, ap, ◌∙◌, arith, ◌⊎◌, List, [], ◌∷◌, length,
  take, leb, ne→==_not, true,
}
use mathlib.Core.Path.{ap₂}
use pictus.Orz.StreamConverter.{add_bytes, change_word_size, init, get_words_as_byte_msb_to_lsb}
use pictus.Orz.StreamConverter.Round.{AllBytes}
use pictus.Orz.StreamConverter.High.{high_value, bytes_left}
use pictus.Orz.StreamConverter.Lsb.{IsValid}
use pictus.Orz.StreamConverter.Bytes.{digits, get_words_as_byte_msb_to_lsb-digits}
use pictus.Orz.BitConvert.{
  written, byte_count, filled, convert_by_stream, convert_to_bytes, of_result,
}

length-take : {A : Type 0} (n : ℕ) (xs : List A) → n ≤ length xs → length (take n xs) ≡ n
length-take zero xs h = refl
length-take (suc n) [] h = absurd (omega arith)
length-take (suc n) (x ∷ xs) h = ap suc (length-take n xs (omega arith))

AllBytes-take : (n : ℕ) (xs : List ℕ) → AllBytes xs → AllBytes (take n xs)
AllBytes-take zero xs h = tt
AllBytes-take (suc n) [] h = tt
AllBytes-take (suc n) (x ∷ xs) h = (h.0, AllBytes-take n xs h.1)

-- The pixels of whole bytes, as the digits of one number.
abbrev pub word_pixels : ℕ → ℕ → List ℕ → List ℕ
word_pixels depth num bytes = digits depth num (high_value bytes) (8 * length bytes)

filled_words :
    (depth num : ℕ) (bytes : List ℕ)
    → AllBytes bytes
    → 0 < depth
    → depth ≤ 8
    → num * depth ≤ 8 * length bytes
    → of_result (get_words_as_byte_msb_to_lsb num (filled depth bytes))
      ≡ written (word_pixels depth num bytes)
unfolding filled init change_word_size add_bytes
filled_words depth num bytes v positive small enough =
    let (t, got, less, vt) =
      get_words_as_byte_msb_to_lsb-digits num (filled depth bytes) valid positive small
        (omega (arith, enough)) in
    rw got (ap written (ap₂ (digits depth num) (bytes_left bytes v) (omega arith)))
  where
    valid : IsValid (filled depth bytes)
    valid = record { bytes = v; in_byte = omega arith }

enough_bytes : (depth num : ℕ) → num * depth + 7 < 2 ^ 32 → num * depth ≤ 8 * byte_count depth num
enough_bytes depth num h = omega arith

le→leb : (a b : ℕ) → a ≤ b → leb a b ≡ true
le→leb a b h = ground arith

convert_by_stream-words :
    (depth num : ℕ) (source : List ℕ)
    → 0 < depth
    → depth ≤ 8
    → AllBytes source
    → num * depth + 7 < 2 ^ 32
    → byte_count depth num ≤ length source
    → convert_by_stream depth num source
      ≡ written (word_pixels depth num (take (byte_count depth num) source))
unfolding convert_by_stream
convert_by_stream-words depth num source positive small v fits inside =
    rw (le→leb (byte_count depth num) (length source) inside, convert_by_stream)
      (filled_words depth num (take (byte_count depth num) source)
        (AllBytes-take (byte_count depth num) source v) positive small
        (omega
          (arith, enough_bytes depth num fits, length-take (byte_count depth num) source inside)))

stream_chosen :
    (depth num : ℕ) (source : List ℕ)
    → (depth ≡ 3) ⊎ ((4 < depth) × (depth ≤ 8))
    → convert_to_bytes depth num source ≡ convert_by_stream depth num source
unfolding convert_to_bytes
stream_chosen depth num source d =
    rw
      (
        ne→==_not depth 1 (ground arith),
        ne→==_not depth 2 (ground arith),
        ne→==_not depth 4 (ground arith),
        le→leb 1 depth (ground arith),
        le→leb depth 8 (ground arith),
        convert_to_bytes,
      )
      refl

-- ConvertToBytes of words of 3, 5, 6, 7 or 8 bits, which fit 32 bits in number and stand in the
-- source: it writes the digits, of that many bits, of the bytes that hold the words, taken as one
-- number, the highest digit first.
pub convert_to_bytes-words :
    (depth num : ℕ) (source : List ℕ)
    → (depth ≡ 3) ⊎ ((4 < depth) × (depth ≤ 8))
    → AllBytes source
    → num * depth + 7 < 2 ^ 32
    → byte_count depth num ≤ length source
    → convert_to_bytes depth num source
      ≡ written (word_pixels depth num (take (byte_count depth num) source))
convert_to_bytes-words depth num source d v fits inside =
    stream_chosen depth num source d
    ∙ convert_by_stream-words depth num source (ground arith) (ground arith) v fits inside
