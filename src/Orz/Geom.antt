-- ===== src/Orz/Geom.antt =====
-- orz/geom.h at `int`: sizes, points and rectangles. The coordinates are integers of any size: what
-- the code does where an `int` overflows is undefined.
pub mod Size
pub mod Point
pub mod Rect
pub mod Clip
