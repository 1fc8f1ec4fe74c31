-- ===== src/App/Translators/Bindings.antt =====
-- Round trips of the keyboard bindings.
use pictus.Base.{ℕ, ◌<◌, ◌^◌, ◌≡◌, refl, ap, ◌∙◌, Bool, true, false, some, List, [], ◌∷◌, ◌++◌}
use mathlib.Core.List.{append-nil}
use pictus.Base.Int.{ℤ, pos}
use pictus.Base.Text.{
  write_ℤ, write_ℕ, read_int, read_int-write_ℤ, split, split-last, split-append, implode,
  implode_more, has_no, has_no-digits, write_ℕ-AllDigits,
}
use pictus.App.KeyActions.{KeyboardPress}
use pictus.App.KeyActions.Identifiers.{Named, action-IsNamed}
use pictus.App.Translators.{
  KeyboardBinding, value, get_keyboard_binding, put_keyboard_binding, add_modifiers, modifiers_of,
  plain_key, bind_parts,
}

-- The text of the modifiers has no comma, and sets the modifiers that it was made of.
abbrev Modifies : KeyboardPress → Type 0
Modifies k =
    (add_modifiers (split b'+' (implode b'+' (modifiers_of k))) (plain_key k.key) ≡ k)
    × (has_no b',' (implode b'+' (modifiers_of k)) ≡ true)

modifiers :
    (alt shift ctrl : Bool) (k : KeyboardPress)
    → k ≡ record { key = k.key; alt = alt; shift = shift; ctrl = ctrl }
    → Modifies k
unfolding add_modifiers modifiers_of split implode has_no
modifiers true true true k e = rw e (refl, refl)
modifiers true true false k e = rw e (refl, refl)
modifiers true false true k e = rw e (refl, refl)
modifiers true false false k e = rw e (refl, refl)
modifiers false true true k e = rw e (refl, refl)
modifiers false true false k e = rw e (refl, refl)
modifiers false false true k e = rw e (refl, refl)
modifiers false false false k e = rw e (refl, refl)

three_parts :
    (a b c : List ℕ)
    → has_no b',' a ≡ true
    → has_no b',' b ≡ true
    → has_no b',' c ≡ true
    → split b',' (implode b',' (a ∷ b ∷ c ∷ [])) ≡ a ∷ b ∷ c ∷ []
unfolding implode implode_more
three_parts a b c ha hb hc =
    split-append b',' a (b ++ b',' ∷ (c ++ [])) ha
    ∙ ap (◌∷◌ a) (
        split-append b',' b (c ++ []) hb
        ∙ ap (◌∷◌ b) (ap (split b',') (append-nil c) ∙ split-last b',' c hc))

number_text : (z : ℤ) (k : ℕ) → z ≡ pos k → has_no b',' (write_ℤ z) ≡ true
unfolding write_ℤ
number_text z k e = rw e (has_no-digits b',' (write_ℕ k) refl (write_ℕ-AllDigits k))

read_back : (z : ℤ) (k : ℕ) → z ≡ pos k → k < 2 ^ 31 → read_int (write_ℤ z) ≡ some z
read_back z k e h = rw e (read_int-write_ℤ k h)

-- Reading a keyboard binding gives back the one that was written, if its key is a number that an
-- `int` holds and its action has a name.
pub get_keyboard_binding-put :
    (b : KeyboardBinding) (k : ℕ)
    → b.key.key ≡ pos k
    → k < 2 ^ 31
    → Named b.action
    → (t : List ℕ) × (put_keyboard_binding b ≡ some t) × (get_keyboard_binding t ≡ value b)
unfolding put_keyboard_binding get_keyboard_binding bind_parts
get_keyboard_binding-put b k e h n =
    let (t, written, back, plain, not_undefined) = action-IsNamed b.action n in
    let (sets, no_comma) = modifiers b.key.alt b.key.shift b.key.ctrl b.key refl in
    (
      implode b',' (write_ℤ b.key.key ∷ implode b'+' (modifiers_of b.key) ∷ t ∷ []),
      rw written refl,
      rw
          (three_parts (write_ℤ b.key.key) (implode b'+' (modifiers_of b.key)) t
            (number_text b.key.key k e) no_comma plain)
          (rw (read_back b.key.key k e h, back, sets, not_undefined) refl),
    )
