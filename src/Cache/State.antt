-- ===== src/Cache/State.antt =====
-- The state of `Cacher`, and its methods as actions that return or raise.
use Prim.Native.String.{String}
use pictus.Base.{ℕ, ◌≡◌, Bool, Option, List}
use pictus.Cache.Queue.{Call}

-- Internal::FileEntry. An image is a number, given out by `make_shared` in the order of creation.
pub record FileEntry : Type 0 where
  pub fullname : String
  pub image : Option ℕ

-- `codecs` is `m_cfs`, as the test `DoCodecExist(GetExtension(filename))`; `calls` are the calls of
-- `m_decThread` so far that reach its queue, oldest first.
pub record Cacher : Type 0 where
  pub files : List FileEntry
  pub index : ℕ
  pub went_forward : Bool
  pub wrap_around : Bool
  pub codecs : Option (String → Bool)
  pub next_id : ℕ
  pub calls : List Call

-- `out_of_range` is no exception of the program: it is the undefined `m_files[i]` beyond the end.
pub data Error : Type 0 where
  invalid_call invalid_param out_of_range : Error

pub data Result {ℓ} (A : Type ℓ) : Type ℓ where
  ok : A → Result A
  err : Error → Result A

abbrev pub M : Type 0 → Type 0
M A = Cacher → Result (A × Cacher)

infixl 5 ◌>>=◌ ◌>>◌
abbrev pub ◌>>=◌ : {A B : Type 0} → M A → (A → M B) → M B
◌>>=◌ m f c = elim (m c) [ ok (a, d) ↦ f a d | err e ↦ err e ]

abbrev pub ◌>>◌ : {A B : Type 0} → M A → M B → M B
◌>>◌ m k = m >>= λ _. k

abbrev pub pure : {A : Type 0} → A → M A
pure a c = ok (a, c)

abbrev pub raise : {A : Type 0} → Error → M A
raise e c = err e

abbrev pub gets : {A : Type 0} → (Cacher → A) → M A
gets f c = ok (f c, c)

abbrev pub modify : (Cacher → Cacher) → M (Unit {0})
modify f c = ok (tt, f c)

-- The call returns, with a result and a state that meet `P`.
abbrev pub Returns : {A : Type 0} → Result (A × Cacher) → (A → Cacher → Type 0) → Type 0
Returns (ok (a, c)) P = P a c
Returns (err e) P = ⊥

pub Returns-bind :
    {A B : Type 0} (P : A → Cacher → Type 0) (Q : B → Cacher → Type 0) (m : M A) (f : A → M B)
    (c : Cacher)
    → Returns (m c) P
    → ((a : A) (d : Cacher) → P a d → Returns (f a d) Q)
    → Returns ((m >>= f) c) Q
Returns-bind P Q m f c h k = go (m c) h
  where
    go :
        (r : Result (_ × Cacher))
        → Returns r P
        → Returns (elim r [ ok (a, d) ↦ f a d | err e ↦ err e ]) Q
    go (ok (a, d)) p = k a d p
    go (err e) p = absurd p

pub Returns-mono :
    {A : Type 0} (P Q : A → Cacher → Type 0) (r : Result (A × Cacher))
    → Returns r P
    → ((a : A) (d : Cacher) → P a d → Q a d)
    → Returns r Q
Returns-mono P Q (ok (a, d)) h k = k a d h
Returns-mono P Q (err e) h k = absurd h

pub bind_ok :
    {A B : Type 0} (m : M A) (f : A → M B) (c : Cacher) {a : A} {d : Cacher}
    → m c ≡ ok (a, d)
    → (m >>= f) c ≡ f a d
bind_ok m f c e = rw (e, ◌>>=◌)
