-- ===== src/Cache/Cacher/Frame.antt =====
-- What looking at entries leaves as it was, and that it does not fail in range.
use Prim.Native.String.{String}
use pictus.Base.{
  zero, ◌≢◌, inl, inr, Bool-cases, ◌==◌, ℕ, suc, ◌<◌, ◌≡◌, refl, sym, ◌∙◌, ap, Option, none, some,
  List, [], ◌∷◌, map, arith, length, get_elem?, set, length-map, map-set_self, get_elem?-lt,
  get_elem?-map,
}
use mathlib.Core.Path.{ap₂}
use pictus.Cache.Queue.{Call}
use pictus.Cache.State.{FileEntry, Cacher, Returns}
use pictus.Cache.Cacher.{image_of, entry_image, current_image, current_image_filename}

abbrev pub names : Cacher → List String
names c = map (λ (e : FileEntry). e.fullname) c.files

abbrev pub image_in : List FileEntry → ℕ → Option ℕ
image_in files i = elim (get_elem? files i) [ none ↦ none | some e ↦ e.image ]

-- `d` differs from `c` in the calls and in images that `c` had not made yet, at most.
pub record SameList (c d : Cacher) : Type 0 where
  pub same_names : names d ≡ names c
  pub same_index : d.index ≡ c.index
  pub same_direction : d.went_forward ≡ c.went_forward
  pub same_wrap : d.wrap_around ≡ c.wrap_around
  pub same_codecs : d.codecs ≡ c.codecs
  pub kept : (i p : ℕ) → image_in c.files i ≡ some p → image_in d.files i ≡ some p

pub SameList-refl : (c : Cacher) → SameList c c
SameList-refl c = record {
  same_names = refl;
  same_index = refl;
  same_direction = refl;
  same_wrap = refl;
  same_codecs = refl;
  kept = λ i p e. e;
}

pub SameList-trans : {b c d : Cacher} → SameList b c → SameList c d → SameList b d
SameList-trans h k = record {
  same_names = k.same_names ∙ h.same_names;
  same_index = k.same_index ∙ h.same_index;
  same_direction = k.same_direction ∙ h.same_direction;
  same_wrap = k.same_wrap ∙ h.same_wrap;
  same_codecs = k.same_codecs ∙ h.same_codecs;
  kept = λ i p e. k.kept i p (h.kept i p e);
}

pub SameList-length : {c d : Cacher} → SameList c d → length d.files ≡ length c.files
SameList-length {c} {d} h =
    sym (length-map _ d.files) ∙ ap length h.same_names ∙ length-map _ c.files

pub SameList-image :
    {c d : Cacher} (i : ℕ) (p : Option ℕ)
    → SameList c d
    → p ≢ none
    → image_in c.files i ≡ p
    → image_in d.files i ≡ p
SameList-image i none s h e = absurd (h refl)
SameList-image i (some p) s h e = s.kept i p e

pub SameList-calls :
    {c d : Cacher} (ks : List Call) → SameList c d → SameList c (record d { calls = ks })
SameList-calls ks s = record {
  same_names = s.same_names;
  same_index = s.same_index;
  same_direction = s.same_direction;
  same_wrap = s.same_wrap;
  same_codecs = s.same_codecs;
  kept = s.kept;
}

name_in : List String → ℕ → String
name_in [] i = ""
name_in (s ∷ ss) zero = s
name_in (s ∷ ss) (suc i) = name_in ss i

name_in-map :
    (files : List FileEntry) (i : ℕ)
    → name_in (map (λ (e : FileEntry). e.fullname) files) i
      ≡ elim (get_elem? files i) [ none ↦ "" | some e ↦ e.fullname ]
unfolding name_in
name_in-map [] i = refl
name_in-map (x ∷ xs) zero = refl
name_in-map (x ∷ xs) (suc i) = name_in-map xs i

pub current_image_filename-SameList :
    {c d : Cacher} → SameList c d → current_image_filename d ≡ current_image_filename c
unfolding current_image_filename
current_image_filename-SameList {c} {d} s =
    sym (name_in-map d.files d.index)
    ∙ ap₂ name_in s.same_names s.same_index
    ∙ name_in-map c.files c.index

image_in-set :
    (files : List FileEntry) (i : ℕ) (e f : FileEntry) (j p : ℕ)
    → get_elem? files i ≡ some e
    → e.image ≡ none
    → image_in files j ≡ some p
    → image_in (set files i f) j ≡ some p
image_in-set [] i e f j p g h k = k
image_in-set (x ∷ xs) zero e f zero p g h k = ground arith
image_in-set (x ∷ xs) zero e f (suc j) p g h k = k
image_in-set (x ∷ xs) (suc i) e f zero p g h k = k
image_in-set (x ∷ xs) (suc i) e f (suc j) p g h k = image_in-set xs i e f j p g h k

image_in-set_self :
    (files : List FileEntry) (i : ℕ) (e f : FileEntry)
    → get_elem? files i ≡ some e
    → image_in (set files i f) i ≡ f.image
image_in-set_self [] i e f g = cc
image_in-set_self (x ∷ xs) zero e f g = refl
image_in-set_self (x ∷ xs) (suc i) e f g = image_in-set_self xs i e f g

-- The result is the image of the entry at `i`, which is there from then on.
abbrev pub Finds : ℕ → Cacher → Option ℕ → Cacher → Type 0
Finds i c p d = SameList c d × (d.calls ≡ c.calls) × (image_in d.files i ≡ p) × (p ≢ none)

image_of-Returns :
    (i : ℕ) (e : FileEntry) (o : Option ℕ) (c : Cacher)
    → e.image ≡ o
    → get_elem? c.files i ≡ some e
    → Returns (image_of i e c) (Finds i c)
unfolding image_of
image_of-Returns i e (some p) c h g =
    rw (h, image_of) (SameList-refl c, refl, rw (g, image_in) h, λ x. cc)
image_of-Returns i e none c h g =
    rw (h, image_of)
      (
        record {
          same_names = map-set_self _ c.files i g refl;
          same_index = refl;
          same_direction = refl;
          same_wrap = refl;
          same_codecs = refl;
          kept = λ j p. image_in-set c.files i e _ j p g h;
        },
        refl,
        image_in-set_self c.files i e _ g,
        λ x. cc,
      )

pub entry_image-Returns :
    (i : ℕ) (c : Cacher) → i < length c.files → Returns (entry_image i c) (Finds i c)
unfolding entry_image
entry_image-Returns i c h =
    let (e, g) = get_elem?-lt c.files i h in
    rw (g, entry_image) (image_of-Returns i e e.image c refl g)

pub current_image-Returns :
    (c : Cacher) → c.index < length c.files → Returns (current_image c) (Finds c.index c)
unfolding current_image
current_image-Returns c h = elim (Bool-cases (length c.files == 0)) [
  | inl z ↦ absurd (ground arith)
  | inr z ↦ rw z (entry_image-Returns c.index c h)
]

pub names_current :
    (d : Cacher)
    → d.index < length d.files
    → get_elem? (names d) d.index ≡ some (current_image_filename d)
unfolding current_image_filename
names_current d h =
    let (e, g) = get_elem?-lt d.files d.index h in
    rw (g, current_image_filename) (get_elem?-map _ d.files d.index g)

-- The name that `d` shows is the one at `j` of `xs`, the names of `d` before.
pub shown :
    (d : Cacher) (xs : List String) (j : ℕ) {name : String}
    → d.index < length d.files
    → get_elem? (names d) d.index ≡ get_elem? xs j
    → get_elem? xs j ≡ some name
    → current_image_filename d ≡ name
shown d xs j h e g = cc (names_current d h)
