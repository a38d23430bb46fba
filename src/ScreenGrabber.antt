-- ===== src/ScreenGrabber.antt =====
-- client/src/client/screen_grabber/screen_grabber.cc: the screen as PNG bytes. X11 and the encoder
-- are outside: what they answer is in a `Screen`.
pub mod Rows
pub mod Colours
pub mod Pixels
pub mod Scoped
pub mod Releases
use cpp_remote_screen_captur.Base.{
  ℕ, zero, suc, ◌+◌, ◌*◌, Bool, true, false, ◌||◌, List, [], ◌∷◌, Option, none, some, ◌==◌,
  if◌then◌else◌, set,
}
use cpp_remote_screen_captur.Base.Int.{ℤ, pos, negsuc}
use cpp_remote_screen_captur.Client.State.{
  GrabberError, no_display, no_attributes, no_image, invalid_size, unsupported_bpp,
}
use cpp_remote_screen_captur.Client.Loop.{Grab, grabbed, failed_grab}

-- `memory` holds the bytes from `data` on.
pub record XImage : Type 0 where
  pub bits_per_pixel : ℕ
  pub bytes_per_line : ℕ
  pub lsb_first : Bool
  pub memory : ℕ → ℕ

-- The loop `for (int i{0}; i < n; ++i)` over a body that changes the pixels.
unfoldable pub for_upto : ℕ → (ℕ → List ℕ → List ℕ) → List ℕ → List ℕ
for_upto zero body pixels = pixels
for_upto (suc n) body pixels = body n (for_upto n body pixels)

-- `std::vector<uint8_t> pixels(n)`.
unfoldable pub zeros : ℕ → List ℕ
zeros zero = []
zeros (suc n) = 0 ∷ zeros n

pub record Rgb : Type 0 where
  pub red : ℕ
  pub green : ℕ
  pub blue : ℕ

-- The branches of the inner loop; `x` is the column and `row` the offset of the row.
unfoldable pub read_pixel : XImage → ℕ → ℕ → Rgb
read_pixel img row x =
    if img.bits_per_pixel == 24
    then if img.lsb_first
      then record {
        red = img.memory (row + (x * 3 + 2));
        green = img.memory (row + (x * 3 + 1));
        blue = img.memory (row + (x * 3 + 0));
      }
      else record {
        red = img.memory (row + (x * 3 + 0));
        green = img.memory (row + (x * 3 + 1));
        blue = img.memory (row + (x * 3 + 2));
      }
    else if img.lsb_first
    then record {
      red = img.memory (row + (x * 4 + 2));
      green = img.memory (row + (x * 4 + 1));
      blue = img.memory (row + (x * 4 + 0));
    }
    else record {
      red = img.memory (row + (x * 4 + 1));
      green = img.memory (row + (x * 4 + 2));
      blue = img.memory (row + (x * 4 + 3));
    }

unfoldable pub write_pixel : ℕ → Rgb → List ℕ → List ℕ
write_pixel idx p pixels = set (set (set pixels (idx + 0) p.red) (idx + 1) p.green) (idx + 2) p.blue

-- The products of `int`s: the count of all bytes, the place of a row in the image, and that of a
-- pixel in the result. A place that is not an `int` is undefined there.
abbrev pub pixels_size : ℕ → ℕ → ℕ
pixels_size width height = width * height * 3

abbrev pub row_offset : XImage → ℕ → ℕ
row_offset img y = y * img.bytes_per_line

abbrev pub pixel_index : ℕ → ℕ → ℕ → ℕ
pixel_index width y x = (y * width + x) * 3

unfoldable pub fill_row : XImage → ℕ → ℕ → ℕ → List ℕ → List ℕ
unfolding for_upto write_pixel
fill_row img width y n =
    for_upto n (λ x. write_pixel (pixel_index width y x) (read_pixel img (row_offset img y) x))

unfoldable pub fill_rows : XImage → ℕ → ℕ → List ℕ → List ℕ
unfolding for_upto fill_row
fill_rows img width n = for_upto n (λ y. fill_row img width y width)

-- `none` is the exception. The theorems on the pixels take it that the products are within `int`.
unfoldable pub convert_to_rgb : XImage → ℕ → ℕ → Option (List ℕ)
unfolding fill_rows zeros
convert_to_rgb img width height =
    if img.bits_per_pixel == 24 || img.bits_per_pixel == 32
    then some (fill_rows img width height (zeros (pixels_size width height)))
    else none

-- What X11 answers, with `none` for a null pointer or 0, and what the encoder writes.
pub record Screen : Type 0 where
  pub display : Bool
  pub attributes : Option (ℤ × ℤ)
  pub image : Option XImage
  pub encode_png : List ℕ → ℕ → ℕ → List ℕ

abbrev pub encoded : Screen → XImage → ℕ → ℕ → Option (List ℕ) → Grab
encoded sys img width height none = failed_grab (unsupported_bpp img.bits_per_pixel)
encoded sys img width height (some pixels) = grabbed (sys.encode_png pixels width height)

abbrev pub with_image : Screen → ℕ → ℕ → Option XImage → Grab
with_image sys width height none = failed_grab no_image
with_image sys width height (some img) =
    encoded sys img width height (convert_to_rgb img width height)

abbrev pub with_size : Screen → Option (ℤ × ℤ) → Grab
with_size sys none = failed_grab no_attributes
with_size sys (some (pos (suc width), pos (suc height))) =
    with_image sys (suc width) (suc height) sys.image
with_size sys (some _) = failed_grab invalid_size

unfoldable pub grab_as_png : Screen → Grab
grab_as_png sys = if sys.display then with_size sys sys.attributes else failed_grab no_display
