-- ===== src/ScreenGrabber/Pixels.antt =====
-- screen_grabber.cc: the pixels of `ConvertToRGB`, their places, and the result of `GrabAsPNG`.
use cpp_remote_screen_captur.Base.{
  ℕ, zero, suc, ◌+◌, ◌*◌, ◌/◌, ◌^◌, ◌<◌, ◌≤◌, ◌≡◌, refl, ap, ◌∙◌, true, ◌||◌, List, ◌++◌, Option,
  none, some, ◌==◌, length, arith, ◌⊎◌, inl, inr, sym, Bool-cases,
}
use cpp_remote_screen_captur.Base.Bytes.{IsByte}
use cpp_remote_screen_captur.Base.Int.{ℤ, pos, negsuc}
use cpp_remote_screen_captur.Client.Loop.{grabbed}
use cpp_remote_screen_captur.ScreenGrabber.{
  Screen, encoded, with_image, with_size, grab_as_png, XImage, read_pixel, row_offset, pixels_size,
  pixel_index, convert_to_rgb, fill_rows, zeros,
}
use cpp_remote_screen_captur.ScreenGrabber.Rows.{
  rgb_bytes, row_read, image_read, length-image_read, convert_to_rgb-image_read,
}
use cpp_remote_screen_captur.ScreenGrabber.Colours.{row_bytes, image_bytes, read_pixel-colours}

module _ (img : XImage) (octets : (i : ℕ) → IsByte (img.memory i))
    (depth : (img.bits_per_pixel == 24 || img.bits_per_pixel == 32) ≡ true) where
  row_read-row_bytes : (y n : ℕ) → row_read img y n ≡ row_bytes img y n
  row_read-row_bytes y zero = refl
  row_read-row_bytes y (suc n) =
      ap (λ (b : List ℕ). b ++ rgb_bytes (read_pixel img (row_offset img y) n))
        (row_read-row_bytes y n)
      ∙ ap (◌++◌ (row_bytes img y n)) (read_pixel-colours img (row_offset img y) n octets depth)

  image_read-image_bytes : (width n : ℕ) → image_read img width n ≡ image_bytes img width n
  image_read-image_bytes width zero = refl
  image_read-image_bytes width (suc n) =
      ap (λ (b : List ℕ). b ++ row_read img n width) (image_read-image_bytes width n)
      ∙ ap (◌++◌ (image_bytes img width n)) (row_read-row_bytes n width)

-- An image of X11 at a size: its memory has bytes, a row has room for its pixels, and the bytes of
-- all rows and of the result are counted by `int`s.
pub record IsImageOf (img : XImage) (width height : ℕ) : Type 0 where
  pub octets : (i : ℕ) → IsByte (img.memory i)
  pub row_holds : width * (img.bits_per_pixel / 8) ≤ img.bytes_per_line
  pub rows_fit : height * img.bytes_per_line < 2 ^ 31
  pub pixels_fit : pixels_size width height < 2 ^ 31

-- A pixel lies within the image, and within the array of the result; no product is beyond `int`.
pub record Fits (img : XImage) (width height y x : ℕ) : Type 0 where
  pub row_int : row_offset img y < 2 ^ 31
  pub index_int : pixel_index width y x < 2 ^ 31
  pub within_image :
      row_offset img y + (x * (img.bits_per_pixel / 8) + img.bits_per_pixel / 8)
      ≤ height * img.bytes_per_line
  pub within_pixels : pixel_index width y x + 3 ≤ pixels_size width height

row_below : (y height line : ℕ) → y < height → y * line + line ≤ height * line
row_below y height line h = grind arith

-- The places of a pixel.
place-Fits :
    (img : XImage) (width height y x : ℕ)
    → IsImageOf img width height
    → y < height
    → x < width
    → Fits img width height y x
place-Fits img width height y x is hy hx =
    let size : ℕ = img.bits_per_pixel / 8 in
    let rows = row_below y height img.bytes_per_line hy in
    let columns = row_below x width size hx in
    let lines = row_below y height width hy in
    let room = is.row_holds in
    let all = is.rows_fit in
    let result = is.pixels_fit in
    let image : row_offset img y + (x * size + size) ≤ height * img.bytes_per_line = omega arith in
    let index : pixel_index width y x + 3 ≤ pixels_size width height = omega arith in
    record {
      row_int = omega arith;
      index_int = omega arith;
      within_image = image;
      within_pixels = index;
    }

convert_to_rgb-depth :
    (img : XImage) (width height : ℕ) {pixels : List ℕ}
    → convert_to_rgb img width height ≡ some pixels
    → (img.bits_per_pixel == 24 || img.bits_per_pixel == 32) ≡ true
unfolding convert_to_rgb
convert_to_rgb-depth img width height {pixels} e =
    elim (Bool-cases (img.bits_per_pixel == 24 || img.bits_per_pixel == 32)) [
      | inl known ↦ known
      | inr unknown ↦ ground arith
    ]

-- The pixels by rows.
pixels-image_bytes :
    (img : XImage) (width height : ℕ) {pixels : List ℕ}
    → IsImageOf img width height
    → convert_to_rgb img width height ≡ some pixels
    → (pixels ≡ image_bytes img width height) × (length pixels ≡ height * width * 3)
pixels-image_bytes img width height {pixels} is e =
    let read = convert_to_rgb-image_read img width height {pixels = pixels} e in
    (
      read
          ∙ image_read-image_bytes img is.octets
              (convert_to_rgb-depth img width height {pixels = pixels} e) width height,
      ap length read ∙ length-image_read img width height,
    )

convert_to_rgb-known :
    (img : XImage) (width height : ℕ)
    → (img.bits_per_pixel ≡ 24) ⊎ (img.bits_per_pixel ≡ 32)
    → (pixels : List ℕ) × (convert_to_rgb img width height ≡ some pixels)
unfolding convert_to_rgb
convert_to_rgb-known img width height (inl is24) =
    (fill_rows img width height (zeros (pixels_size width height)), ground arith)
convert_to_rgb-known img width height (inr is32) =
    (fill_rows img width height (zeros (pixels_size width height)), ground arith)

-- On an image of X11 with 24 or 32 bits to a pixel, of which the bytes of all rows and of the
-- result are counted by `int`s, `ConvertToRGB` throws nothing, and the pixels that it gives, an
-- array filled by index, are the colours of the image's pixels, row by row and from left to right,
-- three bytes to a pixel, where a pixel is the number that its bytes make in the image's byte
-- order; and for each pixel the products that are taken for places are within `int`, its bytes are
-- within the image, and the three bytes that are written are within the result.
pub convert_to_rgb-image_bytes :
    (img : XImage) (width height y x : ℕ)
    → (img.bits_per_pixel ≡ 24) ⊎ (img.bits_per_pixel ≡ 32)
    → IsImageOf img width height
    → y < height
    → x < width
    → (convert_to_rgb img width height ≡ some (image_bytes img width height))
      × (length (image_bytes img width height) ≡ pixels_size width height)
      × Fits img width height y x
convert_to_rgb-image_bytes img width height y x depth is hy hx =
    let (pixels, e) = convert_to_rgb-known img width height depth in
    let (same, size) = pixels-image_bytes img width height {pixels = pixels} is e in
    let count : height * width * 3 ≡ pixels_size width height = omega arith in
    (
      e ∙ ap some same,
      ap length (sym same) ∙ size ∙ count,
      place-Fits img width height y x is hy hx,
    )

-- What X11 gives of a screen: with a size, an image of that size.
abbrev pub GivesImage : Option (ℤ × ℤ) → Option XImage → Type 0
GivesImage (some (pos width, pos height)) (some img) = IsImageOf img width height
GivesImage _ _ = Unit {0}

-- What is known of a screen that has been taken.
pub record Taken (sys : Screen) (png : List ℕ) : Type 0 where
  pub width : ℕ
  pub height : ℕ
  pub img : XImage
  pub size : sys.attributes ≡ some (pos (suc width), pos (suc height))
  pub image : sys.image ≡ some img
  pub encoding :
      png ≡ sys.encode_png (image_bytes img (suc width) (suc height)) (suc width) (suc height)

encoded-Taken :
    (sys : Screen) (img : XImage) (width height : ℕ) (pixels : Option (List ℕ)) {png : List ℕ}
    → convert_to_rgb img (suc width) (suc height) ≡ pixels
    → sys.attributes ≡ some (pos (suc width), pos (suc height))
    → sys.image ≡ some img
    → IsImageOf img (suc width) (suc height)
    → encoded sys img (suc width) (suc height) pixels ≡ grabbed png
    → Taken sys png
encoded-Taken sys img width height none c a i is e = cc
encoded-Taken sys img width height (some pixels) {png} c a i is e =
    let (same, l) = pixels-image_bytes img (suc width) (suc height) {pixels = pixels} is c in
    record {
      width = width;
      height = height;
      img = img;
      size = a;
      image = i;
      encoding = ground arith;
    }

with_image-Taken :
    (sys : Screen) (width height : ℕ) (image : Option XImage) {png : List ℕ}
    → sys.attributes ≡ some (pos (suc width), pos (suc height))
    → sys.image ≡ image
    → GivesImage (some (pos (suc width), pos (suc height))) image
    → with_image sys (suc width) (suc height) image ≡ grabbed png
    → Taken sys png
with_image-Taken sys width height none a i is e = cc
with_image-Taken sys width height (some img) {png} a i is e =
    encoded-Taken sys img width height (convert_to_rgb img (suc width) (suc height)) {png = png}
      refl a i is e

with_size-Taken :
    (sys : Screen) (attributes : Option (ℤ × ℤ)) {png : List ℕ}
    → sys.attributes ≡ attributes
    → GivesImage attributes sys.image
    → with_size sys attributes ≡ grabbed png
    → Taken sys png
with_size-Taken sys none a is e = cc
with_size-Taken sys (some (pos (suc width), pos (suc height))) {png} a is e =
    with_image-Taken sys width height sys.image {png = png} a refl is e
with_size-Taken sys (some (pos zero, h)) a is e = cc
with_size-Taken sys (some (negsuc n, h)) a is e = cc
with_size-Taken sys (some (pos (suc w), pos zero)) a is e = cc
with_size-Taken sys (some (pos (suc w), negsuc n)) a is e = cc

-- If `GrabAsPNG` throws nothing, on a screen where an image that X11 gives is one of X11 at the
-- screen's size, the bytes of all rows and of the result being counted by `int`s, then X11 gave a
-- width and a height above 0 and an image, and the result is what the encoder makes of the
-- colours of the image's pixels, row by row and from left to right, at this size.
pub grab_as_png-Taken :
    (sys : Screen) {png : List ℕ}
    → GivesImage sys.attributes sys.image
    → grab_as_png sys ≡ grabbed png
    → Taken sys png
unfolding grab_as_png
grab_as_png-Taken sys {png} is e =
    with_size-Taken sys sys.attributes {png = png} refl is (ground arith)
