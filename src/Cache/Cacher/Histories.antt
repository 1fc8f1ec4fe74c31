-- ===== src/Cache/Cacher/Histories.antt =====
-- Sequences of calls of the cacher's methods.
use Prim.Native.String.{String}
use pictus.Base.{
  ℕ, suc, ◌+◌, ◌<◌, ◌≡◌, inl, inr, Bool, false, Option, List, [], ◌∷◌, arith, length, Bool-cases,
  leb, Option-cases,
}
use pictus.Base.Int.{ℤ}
use pictus.Cache.State.{FileEntry, Cacher, M, Result, ok, err, ◌>>=◌, pure}
use pictus.Cache.Cacher.{current_image, peek_relative_index, is_zero, size_mod, init}
use pictus.Cache.Cacher.Moves.{
  first_image, last_image, previous_image, next_image, goto_image, find_image, peek_at,
  peek_relative,
}
use pictus.Cache.Cacher.Edits.{
  clear, add_image_last, remove_current_image, remove_image_index, remove_image_filename,
  renamed_image, set_wrap_around, set_codec_factory_store, SortMethod, sort, memory_limit,
  construct,
}
use pictus.Cache.Cacher.Peek.{peek_bound}
use pictus.Cache.Cacher.Safety.{
  IsValid, Safe, Safe-bind, apply_priorities-Safe, current_image-Safe, entry_image-Safe,
  first_image-Safe, last_image-Safe, next_image-Safe, previous_image-Safe, goto_image-Safe,
}
use pictus.Cache.Cacher.Methods.{
  append_entry-IsValid, remove_current_image-Safe, remove_image_index-Safe,
  remove_image_filename-Safe, renamed_image-Safe, sort-Safe, find_image-Safe,
}

pub data Op : Type 0 where
  first last previous next current remove_current limit clears constructs : Op
  goto peek remove_at : ℕ → Op
  find add remove_named : String → Op
  peek_by : ℤ → Op
  rename : String → String → Op
  wrap : Bool → Op
  store : Option (String → Bool) → Op
  sorts : SortMethod → (FileEntry → ℕ) → Op

abbrev done : {A : Type 0} → M A → M (Unit {0})
done m = m >>= λ _. pure tt

-- The call of a public method; its result is dropped.
pub step : Op → M (Unit {0})
step first = done first_image
step last = done last_image
step previous = done previous_image
step next = done next_image
step current = done current_image
step remove_current = done remove_current_image
step limit = done memory_limit
step clears = clear
step constructs = construct
step (goto i) = done (goto_image i)
step (peek i) = done (peek_at i)
step (remove_at i) = done (remove_image_index i)
step (find name) = done (find_image name)
step (add name) = done (add_image_last name)
step (remove_named name) = done (remove_image_filename name)
step (peek_by delta) = done (peek_relative delta)
step (rename old new) = done (renamed_image old new)
step (wrap b) = set_wrap_around b
step (store exist) = set_codec_factory_store exist
step (sorts method key) = done (sort method key)

-- The methods raise before they change anything, so an exception leaves the state as it was.
abbrev after : Cacher → Result (Unit {0} × Cacher) → Cacher
after c (ok (_, d)) = d
after c (err e) = c

pub run : Cacher → List Op → Cacher
run c [] = c
run c (op ∷ ops) = run (after c (step op c)) ops

-- `PeekRelative(0)` is left out: it reads the current entry without asking whether there is one.
abbrev pub IsStep : Op → Type 0
IsStep (peek_by delta) = is_zero delta ≡ false
IsStep _ = Unit

done-Safe :
    {A : Type 0} (P : Cacher → Type 0) (m : M A) (c : Cacher) → Safe (m c) P → Safe (done m c) P
done-Safe P m c h = Safe-bind P P m (λ _. pure tt) c h (λ _ d k. k)

IsValid-suc : {n : ℕ} {c : Cacher} → IsValid n c → IsValid (suc n) c
IsValid-suc v = record { in_range = v.in_range; fits = omega (arith, v.fits) }

module _ (n : ℕ) (small : suc n < size_mod) where
  peek_at-Safe : (i : ℕ) (c : Cacher) → IsValid (suc n) c → Safe (peek_at i c) (IsValid (suc n))
  unfolding peek_at
  peek_at-Safe i c v = elim (Bool-cases (leb (length c.files) i)) [
    | inl y ↦ rw (y, peek_at) tt
    | inr y ↦ rw (y, peek_at) (entry_image-Safe (suc n) small i c (ground arith) v)
  ]

  peek_relative-Safe :
      (delta : ℤ) (c : Cacher)
      → is_zero delta ≡ false
      → IsValid (suc n) c
      → Safe (peek_relative delta c) (IsValid (suc n))
  unfolding peek_relative
  peek_relative-Safe delta c z v = elim (Option-cases (peek_relative_index delta c)) [
    | inl e ↦ rw (e, peek_relative) v
    | inr (i, e) ↦
        rw (e, peek_relative) (entry_image-Safe (suc n) small i c (peek_bound delta c z e) v)
  ]

  add_image_last-Safe :
      (name : String) (c : Cacher) → IsValid n c → Safe (add_image_last name c) (IsValid (suc n))
  unfolding add_image_last
  add_image_last-Safe name c v = elim (Option-cases c.codecs) [
    | inl e ↦ rw (e, add_image_last) tt
    | inr (exist, e) ↦ elim (Bool-cases (exist name)) [
      | inl y ↦
          rw (e, add_image_last)
            (rw (y, add_image_last)
              (apply_priorities-Safe (suc n) small false _ (
                append_entry-IsValid (suc n) small name c (IsValid-suc v) (omega (arith, v.fits)))))
      | inr y ↦
          rw (e, add_image_last)
            (rw (y, add_image_last) (current_image-Safe (suc n) small c (IsValid-suc v)))
    ]
  ]

  step-Safe : (op : Op) (c : Cacher) → IsStep op → IsValid n c → Safe (step op c) (IsValid (suc n))
  unfolding step clear construct set_wrap_around set_codec_factory_store memory_limit find_image
  step-Safe first c h v =
      done-Safe _ first_image c (first_image-Safe (suc n) small c (IsValid-suc v))
  step-Safe last c h v = done-Safe _ last_image c (last_image-Safe (suc n) small c (IsValid-suc v))
  step-Safe previous c h v =
      done-Safe _ previous_image c (previous_image-Safe (suc n) small c (IsValid-suc v))
  step-Safe next c h v = done-Safe _ next_image c (next_image-Safe (suc n) small c (IsValid-suc v))
  step-Safe current c h v =
      done-Safe _ current_image c (current_image-Safe (suc n) small c (IsValid-suc v))
  step-Safe remove_current c h v =
      done-Safe _ remove_current_image c (remove_current_image-Safe (suc n) small c (IsValid-suc v))
  step-Safe limit c h v =
      done-Safe _ memory_limit c (apply_priorities-Safe (suc n) small false c (IsValid-suc v))
  step-Safe clears c h v = record { in_range = λ k. k; fits = omega arith }
  step-Safe constructs c h v = record { in_range = λ k. k; fits = omega arith }
  step-Safe (goto i) c h v =
      done-Safe _ (goto_image i) c (goto_image-Safe (suc n) small i c (IsValid-suc v))
  step-Safe (peek i) c h v = done-Safe _ (peek_at i) c (peek_at-Safe i c (IsValid-suc v))
  step-Safe (remove_at i) c h v =
      done-Safe _ (remove_image_index i) c
        (remove_image_index-Safe (suc n) small i c (IsValid-suc v))
  step-Safe (find name) c h v =
      find_image-Safe (suc n) small name c (λ _. pure tt) (λ found k. IsValid-suc v)
  step-Safe (add name) c h v = done-Safe _ (add_image_last name) c (add_image_last-Safe name c v)
  step-Safe (remove_named name) c h v =
      done-Safe _ (remove_image_filename name) c
        (remove_image_filename-Safe (suc n) small name c (IsValid-suc v))
  step-Safe (peek_by delta) c h v =
      done-Safe _ (peek_relative delta) c (peek_relative-Safe delta c h (IsValid-suc v))
  step-Safe (rename old new) c h v =
      done-Safe _ (renamed_image old new) c
        (renamed_image-Safe (suc n) small old new c (IsValid-suc v))
  step-Safe (wrap b) c h v = record { in_range = v.in_range; fits = omega (arith, v.fits) }
  step-Safe (store exist) c h v = record { in_range = v.in_range; fits = omega (arith, v.fits) }
  step-Safe (sorts method key) c h v =
      done-Safe _ (sort method key) c (sort-Safe (suc n) small method key c (IsValid-suc v))

  after-IsValid :
      (c : Cacher) (r : Result (Unit {0} × Cacher))
      → IsValid n c
      → Safe r (IsValid (suc n))
      → IsValid (suc n) (after c r)
  after-IsValid c (ok (_, d)) v h = h
  after-IsValid c (err e) v h = IsValid-suc v

abbrev pub AllSteps : List Op → Type 0
AllSteps [] = Unit
AllSteps (op ∷ ops) = IsStep op × AllSteps ops

run-IsValid :
    (n m : ℕ) (ops : List Op) (c : Cacher)
    → n + length ops ≡ m
    → m < size_mod
    → AllSteps ops
    → IsValid n c
    → IsValid m (run c ops)
unfolding run
run-IsValid n m [] c e small h v = record { in_range = v.in_range; fits = omega (arith, v.fits) }
run-IsValid n m (op ∷ ops) c e small h v =
    run-IsValid (suc n) m ops (after c (step op c)) (omega arith) small h.1
      (after-IsValid n (omega arith) c (step op c) v (step-Safe n (omega arith) op c h.0 v))

init-IsValid : IsValid 0 init
unfolding init
init-IsValid = record { in_range = λ h. h; fits = omega arith }

-- After any calls of the public methods but `PeekRelative(0)`, fewer than 2^64, from a new cacher,
-- any further call either raises or returns: it never reads an entry beyond the end of the list. If
-- it returns, the position is that of an entry again, unless the list is empty.
pub step-run_safe :
    (ops : List Op) (op : Op)
    → AllSteps ops
    → IsStep op
    → length ops + 1 < size_mod
    → Safe (step op (run init ops)) (IsValid (suc (length ops)))
step-run_safe ops op hs h small =
    step-Safe (length ops) (omega arith) op (run init ops) h
      (run-IsValid 0 (length ops) ops init (omega arith) (omega arith) hs init-IsValid)
