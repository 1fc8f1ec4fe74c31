-- ===== src/Base/Text.antt =====
-- Texts as lists of code points: literals, equality, decimal numbers as the streams of C++ read and
-- write them, and the splitting at a separator.
use Prim.Native.Char.{code}
use Prim.Native.String.{String}
use pictus.Base.{
  ℕ, zero, suc, ◌+◌, ◌-◌, ◌*◌, ◌/◌, ◌%◌, ◌^◌, ◌<◌, ◌≡◌, refl, ap, ◌∙◌, arith, ◌==◌, Bool, true,
  false, ◌&&◌, ◌||◌, not, inl, inr, Option, none, some, List, [], ◌∷◌, ◌++◌, ltb, leb,
  if◌then◌else◌, Bool-cases,
}
use pictus.Base.Int.{ℤ, pos, negsuc}

abbrev pub codes : String → List ℕ
codes String.[] = []
codes (String.◌∷◌ c s) = code c ∷ codes s

unfoldable pub text_eq : List ℕ → List ℕ → Bool
text_eq [] [] = true
text_eq [] (d ∷ ds) = false
text_eq (c ∷ cs) [] = false
text_eq (c ∷ cs) (d ∷ ds) = c == d && text_eq cs ds

-- The digits of `n` before `rest`; a number has no more digits than `n + 1`.
unfoldable pub digits_before : ℕ → ℕ → List ℕ → List ℕ
digits_before zero n rest = rest
digits_before (suc fuel) n rest =
    let more = digits_before fuel (n / 10) ((48 + n % 10) ∷ rest) in
    if ltb n 10 then (48 + n) ∷ rest else more

-- `ss << n`
unfoldable pub write_ℕ : ℕ → List ℕ
unfolding digits_before
write_ℕ n = digits_before (n + 1) n []

unfoldable pub write_ℤ : ℤ → List ℕ
unfolding write_ℕ
write_ℤ (pos n) = write_ℕ n
write_ℤ (negsuc n) = b'-' ∷ write_ℕ (n + 1)

abbrev pub is_digit : ℕ → Bool
is_digit c = leb 48 c && leb c 57

-- The number that the digits in front of a text continue.
unfoldable pub read_digits : ℕ → List ℕ → ℕ
read_digits n [] = n
read_digits n (c ∷ cs) =
    let more = read_digits (n * 10 + (c - 48)) cs in if is_digit c then more else n

-- A number beyond `int` is read as the last one of its sign; a text without digits as 0.
abbrev clip_pos : ℕ → ℤ
clip_pos n = if ltb n (2 ^ 31) then pos n else pos (2 ^ 31 - 1)

abbrev clip_neg : ℕ → ℤ
clip_neg n =
    if n == 0 then pos 0 else if leb n (2 ^ 31) then negsuc (n - 1) else negsuc (2 ^ 31 - 1)

unfoldable pub read_signed : ℕ → List ℕ → ℤ
unfolding read_digits
read_signed c cs =
    if c == b'-'
    then clip_neg (read_digits 0 cs)
    else if c == b'+'
    then clip_pos (read_digits 0 cs)
    else clip_pos (read_digits 0 (c ∷ cs))

-- `ss >> i` for an `int`; `none` leaves it unset, where the text has only white space.
unfoldable pub read_int : List ℕ → Option ℤ
unfolding read_signed
read_int [] = none
read_int (c ∷ cs) =
    let skipped = read_int cs in
    if (c == 32) || (leb 9 c && leb c 13) then skipped else some (read_signed c cs)

-- `boost::split` at the separator `sep`: one part more than there are separators.
abbrev pub first_part : ℕ → List (List ℕ) → List (List ℕ)
first_part c [] = (c ∷ []) ∷ []
first_part c (p ∷ ps) = (c ∷ p) ∷ ps

unfoldable pub split : ℕ → List ℕ → List (List ℕ)
split sep [] = [] ∷ []
split sep (c ∷ cs) = let parts = split sep cs in if c == sep then [] ∷ parts else first_part c parts

-- `Implode`
unfoldable pub implode_more : ℕ → List (List ℕ) → List ℕ
implode_more glue [] = []
implode_more glue (p ∷ ps) = glue ∷ (p ++ implode_more glue ps)

unfoldable pub implode : ℕ → List (List ℕ) → List ℕ
unfolding implode_more
implode glue [] = []
implode glue (p ∷ ps) = p ++ implode_more glue ps

unfoldable pub has_no : ℕ → List ℕ → Bool
has_no sep [] = true
has_no sep (c ∷ cs) = not (c == sep) && has_no sep cs

pub text_eq_refl : (t : List ℕ) → text_eq t t ≡ true
unfolding text_eq
text_eq_refl [] = refl
text_eq_refl (c ∷ cs) = ground (arith, text_eq_refl cs)

one_more :
    (n d : ℕ) (rest : List ℕ)
    → d < 10
    → read_digits n ((48 + d) ∷ rest) ≡ read_digits (n * 10 + d) rest
unfolding read_digits
one_more n d rest h =
    let digit : is_digit (48 + d) ≡ true = ground arith in
    let e : n * 10 + (48 + d - 48) ≡ n * 10 + d = omega arith in rw (digit, e) refl

-- Reading goes on behind the digits that were written.
read_digits-before :
    (fuel n : ℕ) (rest : List ℕ)
    → n < fuel
    → read_digits 0 (digits_before fuel n rest) ≡ read_digits n rest
unfolding digits_before
read_digits-before zero n rest h = elim h [ ]
read_digits-before (suc fuel) n rest h = elim (Bool-cases (ltb n 10)) [
  | inl one ↦
      rw one (one_more 0 n rest (ground arith) ∙ ap (λ (k : ℕ). read_digits k rest) (omega arith))
  | inr more ↦ rw more (
      read_digits-before fuel (n / 10) ((48 + n % 10) ∷ rest) (ground arith)
      ∙ one_more (n / 10) (n % 10) rest (omega arith)
      ∙ ap (λ (k : ℕ). read_digits k rest) (omega arith))
]

-- All of a text is digits.
abbrev pub AllDigits : List ℕ → Type 0
AllDigits [] = Unit {0}
AllDigits (c ∷ cs) = (is_digit c ≡ true) × AllDigits cs

digits_before-AllDigits :
    (fuel n : ℕ) (rest : List ℕ) → AllDigits rest → AllDigits (digits_before fuel n rest)
unfolding digits_before
digits_before-AllDigits zero n rest a = a
digits_before-AllDigits (suc fuel) n rest a = elim (Bool-cases (ltb n 10)) [
  | inl one ↦ rw one (ground arith, a)
  | inr more ↦
      rw more (digits_before-AllDigits fuel (n / 10) ((48 + n % 10) ∷ rest) (ground arith, a))
]

abbrev NonEmpty : List ℕ → Type 0
NonEmpty t = (c : ℕ) × (cs : List ℕ) × (t ≡ c ∷ cs)

digits_before-NonEmpty :
    (fuel n : ℕ) (rest : List ℕ) → n < fuel → NonEmpty (digits_before fuel n rest)
unfolding digits_before
digits_before-NonEmpty zero n rest h = elim h [ ]
digits_before-NonEmpty (suc fuel) n rest h = elim (Bool-cases (ltb n 10)) [
  | inl one ↦ rw one (48 + n, rest, refl)
  | inr more ↦ rw more (digits_before-NonEmpty fuel (n / 10) ((48 + n % 10) ∷ rest) (ground arith))
]

pub write_ℕ-AllDigits : (n : ℕ) → AllDigits (write_ℕ n)
unfolding write_ℕ
write_ℕ-AllDigits n = digits_before-AllDigits (n + 1) n [] tt

-- A text of digits is read as its number.
read_int-digits :
    (t : List ℕ) → AllDigits t → NonEmpty t → read_int t ≡ some (clip_pos (read_digits 0 t))
unfolding read_int read_signed
read_int-digits [] a (c, cs, e) = cc
read_int-digits (c ∷ cs) a h =
    let space : ((c == 32) || (leb 9 c && leb c 13)) ≡ false = ground (arith, a.0) in
    let minus : (c == b'-') ≡ false = ground (arith, a.0) in
    let plus : (c == b'+') ≡ false = ground (arith, a.0) in
    rw (space, read_int, read_signed, minus, plus) refl

-- A number that `int` holds is read back.
pub read_int-write_ℤ : (n : ℕ) → n < 2 ^ 31 → read_int (write_ℤ (pos n)) ≡ some (pos n)
unfolding write_ℤ write_ℕ read_digits
read_int-write_ℤ n h =
    read_int-digits (digits_before (n + 1) n []) (write_ℕ-AllDigits n)
      (digits_before-NonEmpty (n + 1) n [] (omega arith))
    ∙ rw (read_digits-before (n + 1) n [] (omega arith))
        (let e : ltb n (2 ^ 31) ≡ true = ground arith in rw e refl)

pub has_no-digits :
    (sep : ℕ) (t : List ℕ) → is_digit sep ≡ false → AllDigits t → has_no sep t ≡ true
unfolding has_no
has_no-digits sep [] h a = refl
has_no-digits sep (c ∷ cs) h a = ground (arith, a.0, has_no-digits sep cs h a.1)

-- A part without the separator, at the end or before it.
pub split-last : (sep : ℕ) (p : List ℕ) → has_no sep p ≡ true → split sep p ≡ p ∷ []
unfolding split has_no
split-last sep [] h = refl
split-last sep (c ∷ cs) h = elim (Bool-cases (c == sep)) [
  | inl e ↦ absurd (ground arith)
  | inr e ↦ rw (e, split) (rw (split-last sep cs (ground arith)) refl)
]

pub split-append :
    (sep : ℕ) (p rest : List ℕ)
    → has_no sep p ≡ true
    → split sep (p ++ sep ∷ rest) ≡ p ∷ split sep rest
unfolding split has_no
split-append sep [] rest h = let e : (sep == sep) ≡ true = ground arith in rw (e, split) refl
split-append sep (c ∷ cs) rest h = elim (Bool-cases (c == sep)) [
  | inl e ↦ absurd (ground arith)
  | inr e ↦ rw (e, split) (rw (split-append sep cs rest (ground arith)) refl)
]
