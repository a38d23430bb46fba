-- ===== src/ScreenGrabber/Rows.antt =====
-- screen_grabber.cc: the array that `ConvertToRGB` fills by index, by rows.
use cpp_remote_screen_captur.Base.{
  ℕ, zero, suc, ◌+◌, ◌*◌, ◌≡◌, refl, sym, ap, ◌∙◌, List, [], ◌∷◌, ◌++◌, some, set, length,
  length-append, append_assoc, append-nil, arith,
}
use cpp_remote_screen_captur.ScreenGrabber.{
  XImage, Rgb, for_upto, zeros, read_pixel, write_pixel, row_offset, pixels_size, fill_row,
  fill_rows, convert_to_rgb,
}

abbrev pub rgb_bytes : Rgb → List ℕ
rgb_bytes p = p.red ∷ p.green ∷ p.blue ∷ []

-- The first `n` pixels of the row `y` as the code reads them.
abbrev pub row_read : XImage → ℕ → ℕ → List ℕ
row_read img y zero = []
row_read img y (suc n) = row_read img y n ++ rgb_bytes (read_pixel img (row_offset img y) n)

abbrev pub image_read : XImage → ℕ → ℕ → List ℕ
image_read img width zero = []
image_read img width (suc n) = image_read img width n ++ row_read img n width

length-row_read : (img : XImage) (y n : ℕ) → length (row_read img y n) ≡ n * 3
length-row_read img y zero = omega arith
length-row_read img y (suc n) = omega (
  arith,
  length-row_read img y n,
  length-append (row_read img y n) (rgb_bytes (read_pixel img (row_offset img y) n)),
)

pub length-image_read :
    (img : XImage) (width n : ℕ) → length (image_read img width n) ≡ n * width * 3
length-image_read img width zero = omega arith
length-image_read img width (suc n) = omega (
  arith,
  length-image_read img width n,
  length-append (image_read img width n) (row_read img n width),
  length-row_read img n width,
)

set-append :
    (front rest : List ℕ) (i k v : ℕ)
    → i ≡ length front + k
    → set (front ++ rest) i v ≡ front ++ set rest k v
set-append [] rest i k v e = let same : i ≡ k = omega arith in ap (λ j. set rest j v) same
set-append (x ∷ front) rest zero k v e = absurd (omega arith)
set-append (x ∷ front) rest (suc i) k v e = ap (◌∷◌ x) (set-append front rest i k v (omega arith))

write_pixel-append :
    (front rest : List ℕ) (idx a b c : ℕ) (p : Rgb)
    → idx ≡ length front
    → write_pixel idx p (front ++ (a ∷ b ∷ c ∷ rest)) ≡ front ++ (rgb_bytes p ++ rest)
unfolding write_pixel
write_pixel-append front rest idx a b c p e =
    rw
      (
        set-append front (a ∷ b ∷ c ∷ rest) (idx + 0) 0 p.red (omega arith),
        set-append front (p.red ∷ b ∷ c ∷ rest) (idx + 1) 1 p.green (omega arith),
        set-append front (p.red ∷ p.green ∷ c ∷ rest) (idx + 2) 2 p.blue (omega arith),
      )
      refl

-- A row is written behind the rows above it.
fill_row-append :
    (img : XImage) (width y n k : ℕ) (front : List ℕ)
    → length front ≡ y * width * 3
    → fill_row img width y n (front ++ zeros (n * 3 + k)) ≡ (front ++ row_read img y n) ++ zeros k
unfolding fill_row zeros for_upto
fill_row-append img width y zero k front e =
    let size : zeros (0 * 3 + k) ≡ zeros k = ap zeros (omega arith) in
    ap (λ (z : List ℕ). front ++ z) size
    ∙ ap (λ (f : List ℕ). f ++ zeros k) (sym (append-nil front))
fill_row-append img width y (suc n) k front e =
    let p = read_pixel img (row_offset img y) n in
    let idx : ℕ = (y * width + n) * 3 in
    let above : List ℕ = front ++ row_read img y n in
    let size : zeros (suc n * 3 + k) ≡ zeros (n * 3 + (suc (suc (suc k)))) =
      ap zeros (omega arith) in
    let place : idx ≡ length above =
      omega (arith, length-append front (row_read img y n), length-row_read img y n) in
    ap (λ (z : List ℕ). write_pixel idx p (fill_row img width y n (front ++ z))) size
    ∙ ap (write_pixel idx p) (fill_row-append img width y n (suc (suc (suc k))) front e)
    ∙ write_pixel-append above (zeros k) idx 0 0 0 p place
    ∙ sym (append_assoc above (rgb_bytes p) (zeros k))
    ∙ ap (λ (z : List ℕ). z ++ zeros k) (append_assoc front (row_read img y n) (rgb_bytes p))

fill_rows-append :
    (img : XImage) (width n k : ℕ)
    → fill_rows img width n (zeros (n * width * 3 + k)) ≡ image_read img width n ++ zeros k
unfolding fill_rows for_upto zeros
fill_rows-append img width zero k = ap zeros (omega arith)
fill_rows-append img width (suc n) k =
    let size : zeros (suc n * width * 3 + k) ≡ zeros (n * width * 3 + (width * 3 + k)) =
      ap zeros (omega arith) in
    ap (λ (z : List ℕ). fill_row img width n width (fill_rows img width n z)) size
    ∙ ap (fill_row img width n width) (fill_rows-append img width n (width * 3 + k))
    ∙ fill_row-append img width n width k (image_read img width n) (length-image_read img width n)

-- The pixels are those read, row by row and from left to right.
pub convert_to_rgb-image_read :
    (img : XImage) (width height : ℕ) {pixels : List ℕ}
    → convert_to_rgb img width height ≡ some pixels
    → pixels ≡ image_read img width height
unfolding convert_to_rgb
convert_to_rgb-image_read img width height {pixels} e =
    let size : zeros (pixels_size width height) ≡ zeros (height * width * 3 + 0) =
      ap zeros (omega arith) in
    let whole : fill_rows img width height (zeros (pixels_size width height))
        ≡ image_read img width height =
      ap (fill_rows img width height) size
      ∙ fill_rows-append img width height 0
      ∙ unfold zeros in append-nil (image_read img width height) in
    ground arith
