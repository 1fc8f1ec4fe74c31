-- ===== src/Lib.antt =====
-- Pictus is an image viewer. This library models parts of its core and states what makes them correct.
--
-- The parts, and how they interact. The viewer holds an image cache (`Img::Cacher`, in
-- source/Pictus/imagecache.cpp): the list of the files of a folder, the position in it and the images
-- made so far. After each move or edit the cache hands a list of work requests to the background
-- thread, which keeps it in a queue (`Img::ImageQueue`, source/Pictus/ic_queue.cpp). The thread turns
-- the queue into a work list (`Img::WorkList`), chooses a package of it in the order of the queue and
-- within the memory limit, and calls `Load` of its loader, which opens the file, finds the codec,
-- allocates and decodes, one step for each call. The codecs read packed pixels and the codes of GIF
-- images through `Util::StreamConverter` (source/deps/orz/streamconv.cpp), the bytes of a file through
-- `IO::FileReader` and its byte streamer (source/deps/orz/file_reader.cpp, file_cache.cpp), and write to
-- surfaces (source/deps/illa/surface.cpp) of which they lock areas: rectangles of source/deps/orz/geom.h
-- under one of two strategies. The settings of the program are kept as texts, by the translators of
-- source/Pictus/reg_*_translator.cpp.
--
-- Which file models which part.
--   Base and its children: numbers, integers, lists and bits, shared by all parts.
--   Cache/Queue: `WorkRequest`, its `operator==`, and the methods of `ImageQueue` as steps on the
--     list. The methods hold the mutex from first line to last, so a step is not interrupted.
--   Cache/State: the fields of `Cacher`, and its methods' type: a state to a result with a new
--     state, or an exception. `m_decThread` is the list of its calls so far that reach the queue.
--   Cache/Cacher, with Moves and Edits: the methods of `Cacher` and `FileEntry`, by their own
--     names in small letters (`NextImage` is `next_image`). Where the source changes fields
--     between two calls, the change is a function of its own (`to_next`, `erase_other`).
--   Cache/Cacher/Frame, Peek, Requests, Priorities, Handover, Safety, Methods, Histories,
--     Navigation, Removal and Sorting: the proofs, by what they prove.
--   Cache/Loader: `ImageLoader` (source/Pictus/ic_imageloader.cpp), with what it uses of
--     `AbstractCodec` (source/deps/illa/codec.cpp). What the file, the codec and the allocator
--     answer during one `Load` is the record `Replies`; an extension without a codec is `none`,
--     and so is a `Load` that uses the null pointer. States, Outcome, Reach and Progress have the
--     proofs.
--   Cache/WorkList: `WorkList` and `WorkPackage` (source/Pictus/ic_worklist.cpp,
--     ic_workpackage.cpp). Choice and Rebuilt have the proofs.
--   Cache/Worker: `DecoderWorkerThread` (source/Pictus/ic_workerthread.cpp) with `FetchPackage`
--     and `ReturnPackage`. Each locked section is one step. `Load` has no lock: the thread is in
--     it between two steps, other threads may call `Abort` meanwhile, and its effect on the loader
--     comes with the second step, which is `none` if it uses a null pointer or if it may have
--     deleted the codec of such an `Abort`. Fetch, Invariant, Turn, Processed, Alive and Served
--     have the proofs.
--   Orz/StreamConverter: the converter and its two readers; the loops of `GetWord` and
--     `GetWordMsbToLsb` share `loop`, which takes the body as an argument. Round, Lsb, High, Msb
--     and Bytes have the proofs.
--   Orz/BitConvert: `BitsToBytes`, `CrumbsToBytes`, `NibblesToBytes` and `ConvertToBytes`
--     (source/deps/orz/bitconvert.cpp). Pixels and Words have the proofs.
--   Illa/StringTable: `StringTable::writeString` of the GIF decoder
--     (source/deps/illa/gif_stringtable.cpp). Raster, Interlaced and FewRows have the proofs.
--   Illa/CodeTable: the table of the same class, `resetTable` and `addString`. Growth has the
--     proofs.
--   Illa/SurfaceLock: the two lock strategies of a surface
--     (source/deps/illa/surface_lock_swmr.cpp, surface_lock_exclusive.cpp). Holders has the calls
--     of all threads as a step relation, and the proofs.
--   Illa/Decompress: `Decompress` of the same class, over the bit stream. Tables, Pieces, Turns
--     and Total have the proofs.
--   Illa/TgaRle: the decoder of TGA files with run lengths (source/deps/illa/c_tga_rle.cpp).
--     Pixels and Batches have the proofs.
--   Illa/TgaDecoder: the batches of rows over it (source/deps/illa/c_tga_decoder.cpp, c_tga.cpp).
--     Scanlines and Image have the proofs.
--   Illa/PackBits: `loadRleStream` of the PSD decoder (source/deps/illa/c_psd.cpp). Packets has
--     the proofs.
--   Illa/Rotate: `RotateFixed` (source/deps/illa/filter_rotatefixed.cpp). Loops and Placed have
--     the proofs.
--   Illa/Types: formats and rotation angles (source/deps/illa/types.cpp). Angles has the proofs.
--   Illa/Surface: surfaces in memory (source/deps/illa/surface.cpp, swsurface.cpp,
--     surface_locked_area.cpp). Areas and Unfinished have the proofs.
--   Illa/Headers, with Pcx, Bmp and Tga: the loading of headers (source/deps/illa/pcx_header.cpp,
--     bmp_fileheader.cpp, bmp_header.cpp, c_bmp.cpp, c_tga_header.cpp, color_io.cpp), as steps
--     that return a value and move the reader, refuse the file, or raise. Bmp/Shift has the
--     proofs.
--   Illa/BmpRle: the decoders of run lengths (source/deps/illa/c_bmp_rle.cpp, c_bmp_rle_8.cpp,
--     c_bmp_rle_4.cpp). Inside, Chunks and Process have the proofs.
--   Illa/Pcx: the scan lines of source/deps/illa/c_pcx.cpp. Lines has the proofs.
--   Orz/Geom, with Size, Point and Rect: source/deps/orz/geom.h at integers. Clip has the proofs.
--   Orz/FileReader: streams in memory, `FileReader` and `FileReaderByteStreamer`. Streamer and
--     Seeking have the proofs.
--   Orz/Threadpool: `Threadpool` (source/deps/orz/threadpool.cpp). A step is what a thread does
--     from the lock to the next unlock or wait; Steps has them for all threads in any order.
--     Moved, Preserved and Joined have the proofs.
--   App/KeyActions: the keyboard actions and their identifiers (source/Pictus/app_types.cpp).
--     Identifiers has the proofs.
--   App/Translators: the texts of the settings. Choices and Bindings have the proofs.
--   Tests: the theorems at concrete inputs.
--
-- Bounds and fuel. `size_t` has 64 bits and `int` 32; in the cache and the loader both wrap around as
-- written. Coordinates, sizes and file positions are integers that do not overflow in the model, but
-- for the position of the decoders of bitmaps with run lengths, where an overflow of an `int` is the
-- outcome `overflows`. A `long` has 64 bits, and the lowest byte of a number comes first, as on the
-- machines that are not Windows. An access of a vector beyond its end is the error `out_of_range`, so
-- that a theorem can exclude it. The loop of the converter runs on fuel, one more than the word size,
-- which is enough because each round copies at least one bit. The accumulated word of the converter is
-- not cut to 32 bits, which makes no difference for words of 32 bits at most; the program reads words
-- of 12 bits at most. The loop of `Decompress` has one turn for each bit of its buffer and one more,
-- since each turn reads a code of at least one bit. The loop of `calcShift` has 33 turns, one more
-- than a mask has bits. The row loop of a TGA image has as many turns as the row has pixels, since
-- each turn moves the column, and the loop over its batches one more than the image has rows. The loop
-- over a PSD line has as many turns as the line has bytes. The other loops over scan lines and run
-- lengths are structural on the bytes that are left or on their counters.
--
-- Not modelled: the dates and sizes of files (boost::filesystem), the codecs of which only the test
-- for an extension is used, the stop watch of a loader, spurious wakings (the steps of the threads
-- allow them, but who waits for an update is not woken by one), the join at the end of the background
-- thread, files on a disk, the raw decoders of bitmaps and of TGA images, all of PSD images but the
-- lines with run lengths, PSP, WBMP and XYZ images, the copies between surfaces and the filters but
-- the fixed rotations, strides and addresses of pixels in these rotations, the window system, the
-- renderers and the codecs over other libraries.
pub mod Base
pub mod Orz
pub mod Illa
pub mod Cache
pub mod App
pub mod Tests
