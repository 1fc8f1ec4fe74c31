-- ===== src/Illa/StringTable.antt =====
-- gif_stringtable.cpp: the strings of an LZW table, and how they are written to the surface.
pub mod Raster
pub mod Interlaced
pub mod FewRows
use pictus.Base.{
  ℕ, zero, suc, ◌+◌, ◌*◌, ◌==◌, Bool, true, false, ◌||◌, Option, none, some, List, [], ◌∷◌, ◌++◌,
  leb, if◌then◌else◌,
}

-- The fields that `writeString` uses: the position, the size of the image, the pass of an
-- interlaced
-- image; and the writes to the buffer, each an offset and a byte, oldest first.
pub record Writer : Type 0 where
  pub x : ℕ
  pub y : ℕ
  pub width : ℕ
  pub height : ℕ
  pub stride : ℕ
  pub pass : ℕ
  pub interlace : Bool
  pub dest : List (ℕ × ℕ)

-- `m_pass(0)`, `m_x(0)` and `m_y(0)` of the constructor, with the sizes that `Decompress` sets.
unfoldable pub new_writer : ℕ → ℕ → ℕ → Bool → Writer
new_writer width height stride interlace = record {
  x = 0;
  y = 0;
  width = width;
  height = height;
  stride = stride;
  pass = 0;
  interlace = interlace;
  dest = [];
}

-- `pDest[m_x + m_y * m_stride] = value`
unfoldable pub write_byte : ℕ → Writer → Writer
write_byte value t = record t { dest = t.dest ++ (t.x + t.y * t.stride, value) ∷ [] }

-- The row after a pass goes on by `step`, unless it is beyond the image: then the next pass starts.
unfoldable pub next_pass : ℕ → ℕ → Writer → Writer
next_pass step start t =
    if leb t.height (t.y + step)
    then record t { y = start; pass = t.pass + 1 }
    else record t { y = t.y + step }

unfoldable pub next_row : Writer → Writer
unfolding next_pass
next_row t =
    if t.pass == 0
    then next_pass 8 4 t
    else if t.pass == 1
    then next_pass 8 2 t
    else if t.pass == 2
    then next_pass 4 1 t
    else if t.pass == 3
    then record t { y = t.y + 2 }
    else t

unfoldable pub put_plain : ℕ → Writer → Writer
unfolding write_byte
put_plain value t =
    let u = record (write_byte value t) { x = t.x + 1 } in
    if u.x == u.width then record u { x = 0; y = t.y + 1 } else u

unfoldable pub put_interlaced : ℕ → Writer → Writer
unfolding write_byte next_row
put_interlaced value t =
    let u = if leb t.pass 4 then write_byte value t else t in
    let v = record u { x = t.x + 1 } in if v.x == v.width then next_row (record v { x = 0 }) else v

-- One turn of the loop; `none` is the return where the image is full.
unfoldable pub put : ℕ → Writer → Option Writer
unfolding put_plain put_interlaced
put value t =
    if leb t.width t.x || leb t.height t.y
    then none
    else if t.interlace
    then some (put_interlaced value t)
    else some (put_plain value t)

unfoldable pub write_string : List ℕ → Writer → Writer
unfolding put
write_string [] t = t
write_string (value ∷ values) t = elim (put value t) [ none ↦ t | some u ↦ write_string values u ]
