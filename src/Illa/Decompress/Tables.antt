-- ===== src/Illa/Decompress/Tables.antt =====
-- What `addString` and `resetTable` leave as it was.
use native.Mathlib.Nat.{pow-le-pow_right}
use pictus.Base.{
  ℕ, ◌+◌, ◌^◌, ◌<◌, ◌≤◌, ◌≡◌, refl, ◌∙◌, arith, ◌==◌, Bool, true, ◌&&◌, Bool-cases, inl, inr, some,
  List, [], ◌∷◌, ◌++◌, ltb, leb, length, set, length-set, get_elem?-lt, le→ltb_not,
}
use pictus.Base.Int.{ℤ, pos, negsuc}
use pictus.Orz.StreamConverter.{change_word_size}
use pictus.Illa.CodeTable.{
  CodeTable, ok, grow, append_string, add_string, string_at, reset_table, first_byte,
}
use pictus.Illa.CodeTable.Growth.{IsTable, length-reset_entries}

-- The stream goes on where it was, with codes that are wider than the first ones.
pub record SameStream (t u : CodeTable) : Type 0 where
  pub source : u.stream.source ≡ t.stream.source
  pub src_pos : u.stream.src_pos ≡ t.stream.src_pos
  pub initial : u.initial_code_size ≡ t.initial_code_size
  pub wide : u.initial_code_size < u.stream.word_size

-- A code that has a string.
abbrev pub IsCode : ℤ → Type 0
IsCode (pos n) = n < 4096
IsCode (negsuc n) = ⊥

pub string_at-IsCode :
    (t : CodeTable) (c : ℤ) → IsTable t → IsCode c → (l : List ℕ) × (string_at c t ≡ some l)
string_at-IsCode t (pos n) v h = get_elem?-lt t.table n (omega (arith, h, v.entries))
string_at-IsCode t (negsuc n) v h = absurd h

grow-SameStream : (t : CodeTable) → t.initial_code_size < t.stream.word_size → SameStream t (grow t)
unfolding grow change_word_size
grow-SameStream t p =
    elim (Bool-cases (leb (2 ^ t.stream.word_size) t.num_codes && ltb t.stream.word_size 12)) [
      | inl y ↦
          rw (y, grow)
            (record { source = refl; src_pos = refl; initial = refl; wide = omega arith })
      | inr y ↦ rw (y, grow) (record { source = refl; src_pos = refl; initial = refl; wide = p })
    ]

both : (a b : Bool) → (a && b) ≡ true → b ≡ true
both a b h = ground arith

grow-IsTable :
    (t : CodeTable)
    → length t.table ≡ 4096
    → t.num_codes ≤ 4096
    → t.stream.word_size ≤ 12
    → IsTable (grow t)
unfolding grow change_word_size
grow-IsTable t a b c =
    elim (Bool-cases (leb (2 ^ t.stream.word_size) t.num_codes && ltb t.stream.word_size 12)) [
      | inl y ↦
          let small : ltb t.stream.word_size 12 ≡ true =
            both (leb (2 ^ t.stream.word_size) t.num_codes) (ltb t.stream.word_size 12) y in
          rw (y, grow) (record { entries = a; room = b; code_size = ground arith })
      | inr y ↦ rw (y, grow) (record { entries = a; room = b; code_size = c })
    ]

-- What `addString` does to two codes with strings.
abbrev pub Adds : ℤ → ℤ → CodeTable → Type 0
Adds a b t =
    (u : CodeTable) × (add_string a b t ≡ ok (pos t.num_codes, u)) × IsTable u × SameStream t u

appends :
    (t : CodeTable) (l c : List ℕ)
    → IsTable t
    → t.num_codes < 4096
    → t.initial_code_size < t.stream.word_size
    → (u : CodeTable) × (append_string (some l) (some c) t ≡ ok (pos t.num_codes, u))
      × IsTable u
      × SameStream t u
unfolding append_string
appends t l c v room p = (
  grow new,
  refl,
  grow-IsTable new (length-set t.table t.num_codes _ ∙ v.entries) (omega arith) v.code_size,
  record { source = same.source; src_pos = same.src_pos; initial = same.initial; wide = same.wide },
)
  where
    new : CodeTable
    new = record t {
      table = set t.table t.num_codes (l ++ first_byte c ∷ []);
      num_codes = t.num_codes + 1;
    }

    same : SameStream new (grow new)
    same = grow-SameStream new p

pub add_string-Adds :
    (t : CodeTable) (a b : ℤ)
    → IsTable t
    → t.initial_code_size < t.stream.word_size
    → IsCode a
    → IsCode b
    → Adds a b t
unfolding add_string
add_string-Adds t (negsuc a) b v p ha hb = absurd ha
add_string-Adds t (pos a) (negsuc b) v p ha hb = absurd hb
add_string-Adds t (pos a) (pos b) v p ha hb = elim (Bool-cases (t.num_codes == 4096)) [
  | inl full ↦
      (t, rw full refl, v, record { source = refl; src_pos = refl; initial = refl; wide = p })
  | inr more ↦
      let room : t.num_codes < 4096 = ground (arith, v.room) in
      let (l, e) = string_at-IsCode t (pos a) v ha in
      let (c, f) = string_at-IsCode t (pos b) v hb in
      let (u, added, w, same) = appends t l c v room p in
      (u, rw (more, le→ltb_not 4095 t.num_codes (omega arith), e, f) added, w, same)
]

pub reset_table-keeps :
    (t : CodeTable)
    → IsTable t
    → t.initial_code_size ≤ 11
    → IsTable (reset_table t) × SameStream t (reset_table t)
unfolding reset_table change_word_size
reset_table-keeps t v h = (
  record {
    entries = length-reset_entries 0 t.table ∙ v.entries;
    room =
        omega (arith, pow-le-pow_right {n = 2} (omega arith) {i = t.initial_code_size} {j = 11} h);
    code_size = omega arith;
  },
  record { source = refl; src_pos = refl; initial = refl; wide = omega arith },
)
