-- ===== src/Tests/Files.antt =====
-- Reading (source/deps/orz/file_reader.cpp, file_cache.cpp) and the masks of bitmaps
-- (source/deps/illa/bmp_header.cpp) at concrete files.
use pictus.Base.{ℕ, ◌≡◌, ◌<◌, refl, arith, true, some, [], ◌∷◌}
use pictus.Base.Int.{pos, negsuc, ◌+ℤ◌}
use pictus.Orz.FileReader.{
  StreamMemory, FileReaderByteStreamer, ok, err, critical_error, out_of_bounds, begin, seek, read,
  read_byte, set_file_reader, read_net_16,
}
use pictus.Orz.FileReader.Streamer.{streamer-reads_file, read_bytes_one_by_one}
use pictus.Orz.FileReader.Seeking.{seek-before_start}
use pictus.Illa.Headers.{done}
use pictus.Illa.Headers.Bmp.{calc_shift, count_set}
use pictus.Illa.Headers.Bmp.Shift.{calc_shift-IsShift, IsShift}

abbrev file : StreamMemory
file = record { source = some (10 ∷ 20 ∷ 30 ∷ []); position = pos 1; is_open = true }

net_word : read_net_16 file ≡ ok (5150, record file { position = pos 3 })
unfolding read_net_16 ◌+ℤ◌
net_word = refl

streamer-reads_file_example :
    (s : FileReaderByteStreamer) × (t : FileReaderByteStreamer) × (set_file_reader file ≡ ok s)
    × (read_bytes_one_by_one 2 s ≡ ok (20 ∷ 30 ∷ [], t))
    × (read_byte t ≡ err critical_error)
streamer-reads_file_example = streamer-reads_file 1 file refl refl (omega arith)

-- A file of 20 bytes less 26.
seek-early :
    (t : StreamMemory) × (seek begin (negsuc 5) file ≡ ok t)
    × (t.position ≡ negsuc 5)
    × (read 26 1 t ≡ err out_of_bounds)
seek-early = seek-before_start 5 26 1 file refl

green : count_set 0x07e0 ≡ 6
unfolding count_set
green = refl

calc_shift-IsShift_example :
    (shift : ℕ) × (calc_shift 0x07e0 file ≡ done (shift, file))
    × (shift < 32)
    × IsShift 0x07e0 shift
calc_shift-IsShift_example = calc_shift-IsShift 0x07e0 file (omega arith) (omega arith)
