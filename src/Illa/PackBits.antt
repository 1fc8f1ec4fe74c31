-- ===== src/Illa/PackBits.antt =====
-- c_psd.cpp: the scan lines of a PSD file with run lengths. The file is the list of the bytes that are
-- left.
pub mod Packets
use pictus.Base.{
  ℕ, zero, suc, ◌+◌, ◌-◌, ◌==◌, Bool, ◌||◌, true, false, Option, none, some, List, [], ◌∷◌, ◌++◌,
  ltb, if◌then◌else◌, take, drop, replicate, length, get_elem?,
}

-- The bytes written to `dest`, and what the function returns.
pub record Unpacked : Type 0 where
  pub is_loaded : Bool
  pub dest : List ℕ

abbrev pub ends : Bool → Unpacked
ends b = record { is_loaded = b; dest = [] }

abbrev pub behind : List ℕ → Unpacked → Unpacked
behind bs u = record u { dest = bs ++ u.dest }

-- The loop of loadRleStream, with the bytes of the line from `streamPosition` on, and the bytes that
-- `dest` has still to get. Each turn takes a byte, so the length of the line is fuel enough.
unfoldable pub unpack : ℕ → List ℕ → ℕ → Unpacked
unpack zero stream missing = ends (missing == 0)
unpack (suc fuel) [] missing = ends (missing == 0)
unpack (suc fuel) (control_byte ∷ []) missing = ends (missing == 0)
unpack (suc fuel) (control_byte ∷ b ∷ rest) missing = elim (missing == 0) [
  | true ↦ ends true
  | false ↦ elim (ltb control_byte 128) [
    | true ↦
        let to_copy = control_byte + 1 in
        elim (ltb missing to_copy || ltb (length (b ∷ rest)) to_copy) [
          | true ↦ ends false
          | false ↦
              behind (take to_copy (b ∷ rest))
                (unpack fuel (drop to_copy (b ∷ rest)) (missing - to_copy))
        ]
    | false ↦ elim (ltb 128 control_byte) [
      | false ↦ unpack fuel (b ∷ rest) missing
      | true ↦
          let to_copy = 257 - control_byte in
          elim (ltb missing to_copy) [
            | true ↦ ends false
            | false ↦ behind (replicate to_copy b) (unpack fuel rest (missing - to_copy))
          ]
    ]
  ]
]

-- The lengths of the lines of all channels, the number of the next line, and the file.
pub record Lines : Type 0 where
  pub rle_scanline_length : List ℕ
  pub current_rle_stream_index : ℕ
  pub file : List ℕ

-- loadRleStream: the number moves on only behind a line that was loaded, the file in any case.
unfoldable pub load_rle_stream : ℕ → Lines → Unpacked × Lines
unfolding unpack
load_rle_stream num_bytes l = elim (get_elem? l.rle_scanline_length l.current_rle_stream_index) [
  | none ↦ (ends false, l)
  | some current_length ↦
      let line = take current_length l.file in
      let read : Lines = record l { file = drop current_length l.file } in
      if length line == current_length
      then (let u = unpack current_length line num_bytes in
          (
            u,
            if u.is_loaded
                then record read { current_rle_stream_index = l.current_rle_stream_index + 1 }
                else read,
          ))
      else (ends false, read)
]
