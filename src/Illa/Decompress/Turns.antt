-- ===== src/Illa/Decompress/Turns.antt =====
-- The pieces of one turn of `Decompress`, from a valid state.
use pictus.Base.{
  ℕ, zero, suc, ◌<◌, ◌≤◌, arith, Bool-cases, inl, inr, if◌then◌else◌, ne→==_not, le→ltb_not,
}
use pictus.Base.Int.{ℤ, pos, negsuc, eqb_ℤ, ltb_ℤ}
use pictus.Illa.CodeTable.{reset_table, add_string}
use pictus.Illa.Decompress.{
  Gif, Step, goes, ended, raises, ◌>>=◌, words_left, with_stream, write_code, after_add, first_code,
  put_last, known_code, new_code, use_code,
}
use pictus.Illa.Decompress.Tables.{IsCode, add_string-Adds, reset_table-keeps}
use pictus.Illa.Decompress.Pieces.{
  IsLast, bits, IsGif, Turns, bind_Turns, enough, read, with_codes-IsGif, last-IsCode,
  put_last-IsGif, write_code-Turns,
}

-- A code is written, and becomes the last one.
put_written :
    (c d : ℤ) (g : Gif)
    → IsCode c
    → IsCode d
    → IsGif g
    → Turns (bits g) (write_code c g >>= λ k. goes (put_last d k))
put_written c d g hc hd v =
    bind_Turns (bits g) (bits g) (write_code c g) (λ k. goes (put_last d k))
      (write_code-Turns c g hc v) (λ k w h. (put_last-IsGif d k hd w, h))

known_rest :
    (c : ℤ) (h : Gif)
    → IsCode c
    → IsGif h
    → Turns (bits h) (
        if eqb_ℤ h.last_code (negsuc 0)
        then goes (put_last c h)
        else after_add (add_string h.last_code c h.codes) h (λ added k. goes (put_last c k)))
known_rest c h hc v = elim (Bool-cases (eqb_ℤ h.last_code (negsuc 0))) [
  | inl fresh ↦ rw fresh (put_last-IsGif c h hc v, omega arith)
  | inr more ↦
      let (u, adds, table, same) =
        add_string-Adds h.codes h.last_code c v.table v.wide (last-IsCode h.last_code v.last more)
          hc in
      let (w, fewer) = with_codes-IsGif h u v table same in
      rw (more, adds) (put_last-IsGif c (record h { codes = u }) hc w, fewer)
]

weaken : (n k : ℕ) (s : Step) → k ≤ n → Turns k s → Turns n s
weaken n k (goes g) h (v, b) = (v, omega arith)
weaken n k (ended g) h v = v
weaken n k (raises e) h v = v

known_code-Turns : (c : ℤ) (g : Gif) → IsCode c → IsGif g → Turns (bits g) (known_code c g)
unfolding known_code
known_code-Turns c g hc v =
    bind_Turns (bits g) (bits g) (write_code c g) _ (write_code-Turns c g hc v)
      (λ h w fewer. weaken (bits g) (bits h) _ fewer (known_rest c h hc w))

new_from :
    (c last : ℤ) (g : Gif)
    → IsCode c
    → IsLast last
    → g.codes.num_codes < 4096
    → IsGif g
    → Turns (bits g) (
        after_add
          (add_string last last g.codes)
          g
          (λ added h. write_code added h >>= λ k. goes (put_last c k)))
unfolding add_string
new_from c (pos n) g hc hl room v =
    let (u, adds, table, same) = add_string-Adds g.codes (pos n) (pos n) v.table v.wide hl hl in
    let (w, fewer) = with_codes-IsGif g u v table same in
    rw adds (
      weaken (bits g) (bits (record g { codes = u })) _ fewer
        (put_written (pos g.codes.num_codes) c (record g { codes = u }) room hc w))
new_from c (negsuc zero) g hc hl room v =
    rw
      (
        ne→==_not g.codes.num_codes 4096 (omega arith),
        le→ltb_not 4095 g.codes.num_codes (omega arith),
      )
      tt
new_from c (negsuc (suc n)) g hc hl room v = absurd hl

new_code-Turns :
    (c : ℤ) (g : Gif)
    → IsCode c
    → g.codes.num_codes < 4096
    → IsGif g
    → Turns (bits g) (new_code c g)
unfolding new_code
new_code-Turns c g hc room v = new_from c g.last_code g hc v.last room v

pub first_code-Turns :
    (g : Gif) → IsGif g → g.codes.stream.word_size ≤ bits g → Turns (bits g) (first_code g)
unfolding first_code reset_table
first_code-Turns g v h =
    let (table, same) = reset_table-keeps g.codes v.table v.initial in
    let (w, fewer) = with_codes-IsGif g (reset_table g.codes) v table same in
    let (c, s, runs, hc, w', less) =
      read (record g { codes = reset_table g.codes }) w (omega (arith, v.wide)) in
    rw runs (
      weaken (bits g) (bits (put_last c (with_stream (record g { codes = reset_table g.codes }) s)))
        _ (omega (arith, less))
        (write_code-Turns c (put_last c (with_stream (record g { codes = reset_table g.codes }) s))
          hc (put_last-IsGif c _ hc w')))

pub use_code-Turns : (c : ℤ) (g : Gif) → IsCode c → IsGif g → Turns (bits g) (use_code c g)
unfolding use_code
use_code-Turns (negsuc n) g hc v = absurd hc
use_code-Turns (pos n) g hc v = elim (Bool-cases (eqb_ℤ (pos n) (pos g.codes.end_code))) [
  | inl last ↦ rw last v
  | inr more ↦ elim (Bool-cases (eqb_ℤ (pos n) (pos g.codes.clear_code))) [
    | inl clear ↦ elim (Bool-cases (words_left g)) [
      | inl left_over ↦ rw (more, clear, left_over) (first_code-Turns g v (enough g left_over))
      | inr short ↦
          rw (more, clear, short)
            (
              record {
                table = v.table;
                stream = v.stream;
                initial = v.initial;
                wide = v.wide;
                last = v.last;
              },
              omega arith,
            )
    ]
    | inr code ↦ elim (Bool-cases (ltb_ℤ (pos n) (pos g.codes.num_codes))) [
      | inl known ↦ rw (more, code, known) (known_code-Turns (pos n) g hc v)
      | inr new ↦ rw (more, code, new) (new_code-Turns (pos n) g hc (ground arith) v)
    ]
  ]
]
