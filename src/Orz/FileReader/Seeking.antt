-- ===== src/Orz/FileReader/Seeking.antt =====
-- Positions before the start of a stream in memory.
use pictus.Base.{ℕ, ◌+◌, ◌≡◌, refl, arith, true, false, suc, ltb, leb, length}
use pictus.Base.Int.{negsuc}
use pictus.Orz.FileReader.{
  StreamMemory, bytes, ok, err, out_of_bounds, seek, begin, refuses, perform_seek, read,
  perform_read, read_at,
}

-- Neither FileReader::Seek nor StreamMemory refuses a position before the start: in an open stream a
-- negative position from the beginning is taken, and every read from it is out of bounds.
pub seek-before_start :
    (n size items : ℕ) (s : StreamMemory)
    → s.is_open ≡ true
    → (t : StreamMemory) × (seek begin (negsuc n) s ≡ ok t)
      × (t.position ≡ negsuc n)
      × (read size items t ≡ err out_of_bounds)
unfolding seek refuses perform_seek read perform_read read_at
seek-before_start n size items s opened =
    let low : ltb (length (bytes s) + suc n) 0 ≡ false = ground arith in
    let inside : leb (length (bytes s) + suc n) 0 ≡ false = ground arith in
    (record s { position = negsuc n }, simp (opened, low) refl, refl, simp (opened, inside) refl)
