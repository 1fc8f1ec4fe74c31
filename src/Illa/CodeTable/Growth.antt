-- ===== src/Illa/CodeTable/Growth.antt =====
-- What `addString` makes of the table.
use native.Mathlib.Nat.{pow-le-pow_right}
use pictus.Base.{
  ℕ, zero, suc, ◌+◌, ◌%◌, ◌^◌, ◌<◌, ◌≤◌, ◌≡◌, ◌≢◌, refl, ap, ◌∙◌, arith, ◌&&◌, Bool, false, inl,
  inr, some, List, [], ◌∷◌, ◌++◌, ltb, leb, if◌then◌else◌, Bool-cases, length, length-set,
  length-replicate, get_elem?, set, replicate, ne→==_not, le→ltb_not,
}
use pictus.Base.Int.{pos}
use pictus.Orz.StreamConverter.{change_word_size}
use pictus.Illa.CodeTable.{
  CodeTable, ok, err, invalid_param, lzw_table_size, add_string, append_string, grow, first_byte,
  new_table, empty_table, reset_table, reset_entries,
}

pub record IsTable (t : CodeTable) : Type 0 where
  pub entries : length t.table ≡ lzw_table_size
  pub room : t.num_codes ≤ lzw_table_size
  pub code_size : t.stream.word_size ≤ 12

get_elem?-set_here :
    {A : Type 0} (xs : List A) (i : ℕ) (v : A) → i < length xs → get_elem? (set xs i v) i ≡ some v
get_elem?-set_here [] i v h = absurd (omega arith)
get_elem?-set_here (x ∷ xs) zero v h = refl
get_elem?-set_here (x ∷ xs) (suc i) v h = get_elem?-set_here xs i v (omega arith)

get_elem?-set_other :
    {A : Type 0} (xs : List A) (i j : ℕ) (v : A) → j ≢ i → get_elem? (set xs i v) j ≡ get_elem? xs j
get_elem?-set_other [] i j v h = refl
get_elem?-set_other (x ∷ xs) zero zero v h = absurd (h refl)
get_elem?-set_other (x ∷ xs) zero (suc j) v h = refl
get_elem?-set_other (x ∷ xs) (suc i) zero v h = refl
get_elem?-set_other (x ∷ xs) (suc i) (suc j) v h = get_elem?-set_other xs i j v (λ e. h (ap suc e))

-- Growing changes the code size only, and not beyond 12 bits.
grow_lem :
    (t : CodeTable)
    → t.stream.word_size ≤ 12
    → ((grow t).table ≡ t.table)
      × ((grow t).num_codes ≡ t.num_codes)
      × ((grow t).stream.word_size ≤ 12)
unfolding grow
grow_lem t h =
    elim (Bool-cases (leb (2 ^ t.stream.word_size) t.num_codes && ltb t.stream.word_size 12)) [
      | inl y ↦ simp (y, grow) (refl, refl, ground arith)
      | inr y ↦ simp (y, grow) (refl, refl, h)
    ]

-- The table with one more code, whose string is `l` and the first byte of `c`; the string of
-- another
-- code `j` is the same.
abbrev pub Added : CodeTable → List ℕ → List ℕ → ℕ → CodeTable → Type 0
Added t l c j u =
    (u.num_codes ≡ t.num_codes + 1)
    × (get_elem? u.table t.num_codes ≡ some (l ++ first_byte c ∷ []))
    × (get_elem? u.table j ≡ get_elem? t.table j)

appended :
    (t : CodeTable) (l c : List ℕ) (j : ℕ)
    → IsTable t
    → t.num_codes < lzw_table_size
    → j ≢ t.num_codes
    → (u : CodeTable) × (append_string (some l) (some c) t ≡ ok (pos t.num_codes, u))
      × IsTable u
      × Added t l c j u
unfolding append_string
appended t l c j v h ne = (
  grow new,
  refl,
  record {
    entries = ap length same ∙ length-set t.table t.num_codes _ ∙ v.entries;
    room = omega (arith, count, h);
    code_size = small;
  },
  (
    count,
    ap (λ (es : List (List ℕ)). get_elem? es t.num_codes) same
        ∙ get_elem?-set_here t.table t.num_codes _ (omega (arith, h, v.entries)),
    ap (λ (es : List (List ℕ)). get_elem? es j) same
        ∙ get_elem?-set_other t.table t.num_codes j _ ne,
  ),
)
  where
    new : CodeTable
    new = record t {
      table = set t.table t.num_codes (l ++ first_byte c ∷ []);
      num_codes = t.num_codes + 1;
    }

    same : (grow new).table ≡ new.table
    same = (grow_lem new v.code_size).0

    count : (grow new).num_codes ≡ t.num_codes + 1
    count = (grow_lem new v.code_size).1

    small : (grow new).stream.word_size ≤ 12
    small = (grow_lem new v.code_size).2

-- addString with two codes that have the strings `l` and `c`, in a table that is not full: it
-- raises nothing, returns the new code, and the table has one more string, `l` and the first byte
-- of `c`, and every other one as it was; it stays valid, with codes of 12 bits at most.
pub add_string-Added :
    (t : CodeTable) (last_code current_code : ℕ) (l c : List ℕ) (j : ℕ)
    → IsTable t
    → t.num_codes < lzw_table_size
    → get_elem? t.table last_code ≡ some l
    → get_elem? t.table current_code ≡ some c
    → j ≢ t.num_codes
    → (u : CodeTable) × (add_string (pos last_code) (pos current_code) t ≡ ok (pos t.num_codes, u))
      × IsTable u
      × Added t l c j u
unfolding add_string
add_string-Added t last_code current_code l c j v h e f ne =
    let (u, a, w, b) = appended t l c j v h ne in (u, step ∙ a, w, b)
  where
    step : add_string (pos last_code) (pos current_code) t ≡ append_string (some l) (some c) t
    step =
        rw
          (
            ne→==_not t.num_codes 4096 (omega arith),
            le→ltb_not 4095 t.num_codes (omega arith),
            e,
            f,
          )
          refl

reset_root :
    (k n i : ℕ)
    → i < n
    → get_elem? (reset_entries k (replicate n [])) i ≡ some ((k + i) % 2 ^ 8 ∷ [])
unfolding reset_entries
reset_root k zero i h = absurd (omega arith)
reset_root k (suc n) zero h = ap (λ (j : ℕ). some (j % 2 ^ 8 ∷ [])) (omega arith)
reset_root k (suc n) (suc i) h =
    reset_root (k + 1) n i (omega arith) ∙ ap (λ (j : ℕ). some (j % 2 ^ 8 ∷ [])) (omega arith)

pub length-reset_entries : (k : ℕ) (es : List (List ℕ)) → length (reset_entries k es) ≡ length es
unfolding reset_entries
length-reset_entries k [] = refl
length-reset_entries k (e ∷ es) = ap suc (length-reset_entries (k + 1) es)

accepted : (b : Bool) (t : CodeTable) → b ≡ false → (if b then err invalid_param else ok t) ≡ ok t
accepted b t h = rw h refl

-- A new table of a code size up to 11, as the constructor makes it: it is valid, its codes are of
-- one bit more, the clear code and the end code stand behind the roots, and the string of every
-- code is its lowest byte.
pub new_table-roots :
    (min_code_size i : ℕ)
    → min_code_size ≤ 11
    → i < lzw_table_size
    → (t : CodeTable) × (new_table min_code_size ≡ ok t)
      × IsTable t
      × (t.stream.word_size ≡ min_code_size + 1)
      × (t.num_codes ≡ t.end_code + 1)
      × (get_elem? t.table i ≡ some (i % 2 ^ 8 ∷ []))
unfolding new_table reset_table change_word_size
new_table-roots min_code_size i small inside = (
  reset_table (empty_table min_code_size),
  accepted (ltb 11 min_code_size) (reset_table (empty_table min_code_size))
      (le→ltb_not 11 min_code_size small),
  record {
    entries =
        length-reset_entries 0 (replicate lzw_table_size [])
        ∙ length-replicate {A = List ℕ} lzw_table_size [];
    room = omega (arith, pow-le-pow_right {n = 2} (omega arith) {i = min_code_size} {j = 11} small);
    code_size = omega arith;
  },
  refl,
  omega arith,
  reset_root 0 lzw_table_size i inside ∙ ap (λ (j : ℕ). some (j % 2 ^ 8 ∷ [])) (omega arith),
)
