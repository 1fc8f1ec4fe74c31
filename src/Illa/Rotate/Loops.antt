-- ===== src/Illa/Rotate/Loops.antt =====
-- What the loops of filter_rotatefixed.cpp leave in each pixel.
use pictus.Base.{
  ℕ, zero, suc, ◌+◌, ◌-◌, ◌/◌, ◌≤◌, ◌≡◌, arith, ◌==◌, ◌&&◌, ◌||◌, ltb, leb, if◌then◌else◌,
}
use pictus.Illa.Rotate.{Buffer, put, for_each, Region, swap, copy_row, swap_rows}

-- A row of puts in which the column moves up.
row_up :
    (n x y : ℕ) (v : ℕ → ℕ) (c : Buffer) (a b : ℕ)
    → for_each n (λ i. put (x + i) y (v i)) c a b
      ≡ (if b == y && leb x a && ltb a (x + n) then v (a - x) else c a b)
unfolding for_each put
row_up zero x y v c a b = ground arith
row_up (suc n) x y v c a b = let h = row_up n x y v c a b in ground arith

-- One in which it moves down, from a row of `w` pixels.
row_down :
    (w n x y : ℕ) (v : ℕ → ℕ) (c : Buffer) (a b : ℕ)
    → n ≤ w
    → for_each n (λ i. put (x + w - 1 - i) y (v i)) c a b
      ≡ (if b == y && leb (x + w) (a + n) && ltb a (x + w) then v (x + w - 1 - a) else c a b)
unfolding for_each put
row_down w zero x y v c a b l = ground arith
row_down w (suc n) x y v c a b l = let h = row_down w n x y v c a b (omega arith) in ground arith

column_up :
    (n x y : ℕ) (v : ℕ → ℕ) (c : Buffer) (a b : ℕ)
    → for_each n (λ i. put x (y + i) (v i)) c a b
      ≡ (if a == x && leb y b && ltb b (y + n) then v (b - y) else c a b)
unfolding for_each put
column_up zero x y v c a b = ground arith
column_up (suc n) x y v c a b = let h = column_up n x y v c a b in ground arith

column_down :
    (w n x y : ℕ) (v : ℕ → ℕ) (c : Buffer) (a b : ℕ)
    → n ≤ w
    → for_each n (λ i. put x (y + (w - i - 1)) (v i)) c a b
      ≡ (if a == x && leb (y + w) (b + n) && ltb b (y + w) then v (y + w - 1 - b) else c a b)
unfolding for_each put
column_down w zero x y v c a b l = ground arith
column_down w (suc n) x y v c a b l =
    let h = column_down w n x y v c a b (omega arith) in ground arith

-- The loops over the rows, of `n` rows.
pub mirrored :
    (w n l t dx dy : ℕ) (s c : Buffer) (a b : ℕ)
    → for_each n (λ y. for_each w (λ x. put (dx + w - 1 - x) (dy + y) (s (l + x) (t + y)))) c a b
      ≡ (if leb dx a && ltb a (dx + w) && leb dy b && ltb b (dy + n)
          then s (l + (dx + w - 1 - a)) (t + (b - dy))
          else c a b)
unfolding for_each
mirrored w zero l t dx dy s c a b = ground arith
mirrored w (suc n) l t dx dy s c a b =
    let d : Buffer =
      for_each n (λ y. for_each w (λ x. put (dx + w - 1 - x) (dy + y) (s (l + x) (t + y)))) c in
    let h = mirrored w n l t dx dy s c a b in
    let g = row_down w w dx (dy + n) (λ x. s (l + x) (t + n)) d a b (omega arith) in ground arith

pub flipped :
    (w m n l t dx dy : ℕ) (s c : Buffer) (a b : ℕ)
    → n ≤ m
    → for_each n (λ y. copy_row w l (t + y) dx (dy + m - 1 - y) s) c a b ≡ (
        if leb dx a && ltb a (dx + w) && leb (dy + m) (b + n) && ltb b (dy + m)
        then s (l + (a - dx)) (t + (dy + m - 1 - b))
        else c a b)
unfolding for_each copy_row
flipped w m zero l t dx dy s c a b k = ground arith
flipped w m (suc n) l t dx dy s c a b k =
    let h = flipped w m n l t dx dy s c a b (omega arith) in ground arith

pub turned_right :
    (w m n l t dx dy : ℕ) (s c : Buffer) (a b : ℕ)
    → n ≤ m
    → for_each n (λ y. for_each w (λ x. put (dx + (m - y - 1)) (dy + x) (s (l + x) (t + y)))) c a b
      ≡ (if leb (dx + m) (a + n) && ltb a (dx + m) && leb dy b && ltb b (dy + w)
          then s (l + (b - dy)) (t + (dx + m - 1 - a))
          else c a b)
unfolding for_each
turned_right w m zero l t dx dy s c a b k = ground arith
turned_right w m (suc n) l t dx dy s c a b k =
    let d : Buffer =
      for_each n (λ y. for_each w (λ x. put (dx + (m - y - 1)) (dy + x) (s (l + x) (t + y)))) c in
    let h = turned_right w m n l t dx dy s c a b (omega arith) in
    let g = column_up w (dx + (m - n - 1)) dy (λ x. s (l + x) (t + n)) d a b in ground arith

pub turned_left :
    (w n l t dx dy : ℕ) (s c : Buffer) (a b : ℕ)
    → for_each n (λ y. for_each w (λ x. put (dx + y) (dy + (w - x - 1)) (s (l + x) (t + y)))) c a b
      ≡ (if leb dx a && ltb a (dx + n) && leb dy b && ltb b (dy + w)
          then s (l + (dy + w - 1 - b)) (t + (a - dx))
          else c a b)
unfolding for_each
turned_left w zero l t dx dy s c a b = ground arith
turned_left w (suc n) l t dx dy s c a b =
    let d : Buffer =
      for_each n (λ y. for_each w (λ x. put (dx + y) (dy + (w - x - 1)) (s (l + x) (t + y)))) c in
    let h = turned_left w n l t dx dy s c a b in
    let g = column_down w w (dx + n) dy (λ x. s (l + x) (t + n)) d a b (omega arith) in ground arith

-- In place: `n` swaps of a row, and of the rows.
row_swapped :
    (w n l y : ℕ) (c : Buffer) (a b : ℕ)
    → n + n ≤ w
    → for_each n (λ x. swap (l + x) (l + w - 1 - x) y) c a b ≡ (
        if b == y && leb l a && ltb a (l + w) && (ltb a (l + n) || leb (l + w) (a + n))
        then c (l + (l + w - 1 - a)) b
        else c a b)
unfolding for_each swap put
row_swapped w zero l y c a b k = ground arith
row_swapped w (suc n) l y c a b k =
    let h = row_swapped w n l y c a b (omega arith) in
    let f = row_swapped w n l y c (l + n) y (omega arith) in
    let g = row_swapped w n l y c (l + w - 1 - n) y (omega arith) in ground arith

pub mirrored_in_place :
    (w h n l t : ℕ) (c : Buffer) (a b : ℕ)
    → h ≡ w / 2
    → for_each n (λ y. for_each h (λ x. swap (l + x) (l + w - 1 - x) (t + y))) c a b ≡ (
        if leb l a && ltb a (l + w) && leb t b && ltb b (t + n)
        then c (l + (l + w - 1 - a)) b
        else c a b)
unfolding for_each
mirrored_in_place w h zero l t c a b k = ground arith
mirrored_in_place w h (suc n) l t c a b k =
    let d : Buffer = for_each n (λ y. for_each h (λ x. swap (l + x) (l + w - 1 - x) (t + y))) c in
    let e = mirrored_in_place w h n l t c a b k in
    let f = mirrored_in_place w h n l t c (l + (l + w - 1 - a)) b k in
    let g = row_swapped w h l (t + n) d a b (omega arith) in ground arith

pub flipped_in_place :
    (r : Region) (n : ℕ) (c : Buffer) (a b : ℕ)
    → n + n ≤ r.height
    → for_each n (λ i. swap_rows r (r.top + i) (r.top + r.height - 1 - i)) c a b ≡ (
        if leb r.left a
          && ltb a (r.left + r.width)
          && leb r.top b
          && ltb b (r.top + r.height)
          && (ltb b (r.top + n) || leb (r.top + r.height) (b + n))
        then c a (r.top + (r.top + r.height - 1 - b))
        else c a b)
unfolding for_each swap_rows copy_row
flipped_in_place r zero c a b k = ground arith
flipped_in_place r (suc n) c a b k =
    let e = flipped_in_place r n c a b (omega arith) in
    let f = flipped_in_place r n c (r.left + (a - r.left)) (r.top + n) (omega arith) in
    let g =
      flipped_in_place r n c (r.left + (a - r.left)) (r.top + r.height - 1 - n) (omega arith) in
    ground arith
