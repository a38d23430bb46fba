-- ===== src/ScreenGrabber/Colours.antt =====
-- screen_grabber.cc: what `ConvertToRGB` reads of a pixel, against the colours of an X image.
use cpp_remote_screen_captur.Base.{
  ℕ, zero, suc, ◌+◌, ◌*◌, ◌/◌, ◌%◌, ◌^◌, ◌≡◌, sym, ap, ◌∙◌, Bool, true, false, ◌||◌, List, [], ◌∷◌,
  ◌++◌, ◌==◌, if◌then◌else◌, arith, inl, inr, Bool-cases,
}
use cpp_remote_screen_captur.Base.Bytes.{IsByte}
use cpp_remote_screen_captur.ScreenGrabber.{XImage, read_pixel}
use cpp_remote_screen_captur.ScreenGrabber.Rows.{rgb_bytes}

-- The number that `n` bytes of memory make, from the place `at` on: the first byte is the lowest or
-- the highest.
abbrev pub little_endian : (ℕ → ℕ) → ℕ → ℕ → ℕ
little_endian memory place zero = 0
little_endian memory place (suc n) = memory place + 256 * little_endian memory (place + 1) n

abbrev pub big_endian : (ℕ → ℕ) → ℕ → ℕ → ℕ
big_endian memory place zero = 0
big_endian memory place (suc n) = big_endian memory place n * 256 + memory (place + n)

abbrev pub value_at : Bool → (ℕ → ℕ) → ℕ → ℕ → ℕ
value_at lsb_first memory place size =
    if lsb_first then little_endian memory place size else big_endian memory place size

-- A pixel is a number of `bits_per_pixel` bits in the image's byte order.
abbrev pub pixel_value : XImage → ℕ → ℕ → ℕ
pixel_value img y x =
    let size : ℕ = img.bits_per_pixel / 8 in
    value_at img.lsb_first img.memory (y * img.bytes_per_line + x * size) size

-- Its colours, by the masks 0xff0000, 0xff00 and 0xff of a screen of 24 bits of colour.
abbrev pub colours : ℕ → List ℕ
colours value = (value / 2 ^ 16 % 256) ∷ (value / 2 ^ 8 % 256) ∷ (value % 256) ∷ []

-- The first `n` pixels of the row `y`, from left to right.
abbrev pub row_bytes : XImage → ℕ → ℕ → List ℕ
row_bytes img y zero = []
row_bytes img y (suc n) = row_bytes img y n ++ colours (pixel_value img y n)

-- The first `n` rows, from top to bottom.
abbrev pub image_bytes : XImage → ℕ → ℕ → List ℕ
image_bytes img width zero = []
image_bytes img width (suc n) = image_bytes img width n ++ row_bytes img n width

-- The colours of a number whose three lowest bytes are known.
colours_of_low :
    (a b c h : ℕ)
    → IsByte a
    → IsByte b
    → IsByte c
    → colours (a + 256 * (b + 256 * (c + 256 * h))) ≡ c ∷ b ∷ a ∷ []
colours_of_low a b c h p q r =
    let n : ℕ = a + 256 * (b + 256 * (c + 256 * h)) in
    let red : n / 2 ^ 16 % 256 ≡ c = omega arith in
    let green : n / 2 ^ 8 % 256 ≡ b = omega arith in let blue : n % 256 ≡ a = omega arith in cc

colours_of_high :
    (r g b h : ℕ)
    → IsByte r
    → IsByte g
    → IsByte b
    → colours (((h * 256 + r) * 256 + g) * 256 + b) ≡ r ∷ g ∷ b ∷ []
colours_of_high r g b h p q s =
    let n : ℕ = ((h * 256 + r) * 256 + g) * 256 + b in
    let red : n / 2 ^ 16 % 256 ≡ r = omega arith in
    let green : n / 2 ^ 8 % 256 ≡ g = omega arith in let blue : n % 256 ≡ b = omega arith in cc

-- The bytes that make the colours of a pixel of three or four bytes, at the place `p`.
abbrev stored : (ℕ → ℕ) → ℕ → Bool → ℕ → List ℕ
stored memory p true skipped = memory (p + 2) ∷ memory (p + 1) ∷ memory p ∷ []
stored memory p false skipped =
    memory (p + skipped) ∷ memory (p + (skipped + 1)) ∷ memory (p + (skipped + 2)) ∷ []

module _ (memory : ℕ → ℕ) (octets : (i : ℕ) → IsByte (memory i)) (p : ℕ) where
  low :
      (h : ℕ)
      → colours (memory p + 256 * (memory (p + 1) + 256 * (memory (p + 1 + 1) + 256 * h)))
        ≡ stored memory p true 0
  low h =
      colours_of_low (memory p) (memory (p + 1)) (memory (p + 1 + 1)) h (octets _) (octets _)
        (octets _)
      ∙ ap (λ (q : ℕ). memory q ∷ memory (p + 1) ∷ memory p ∷ []) (omega arith)

  colours24 : (b : Bool) → colours (value_at b memory p 3) ≡ stored memory p b 0
  colours24 true = low 0
  colours24 false = colours_of_high _ _ _ 0 (octets _) (octets _) (octets _)

  colours32 : (b : Bool) → colours (value_at b memory p 4) ≡ stored memory p b 1
  colours32 true = low _
  colours32 false = colours_of_high _ _ _ _ (octets _) (octets _) (octets _)

-- What the code reads of a pixel.
module _ (img : XImage) (row x : ℕ) where
  byte_at : (n i : ℕ) → img.memory (row + (x * n + i)) ≡ img.memory (row + x * n + i)
  byte_at n i = ap img.memory (omega arith)

  read24 :
      img.bits_per_pixel ≡ 24
      → rgb_bytes (read_pixel img row x) ≡ stored img.memory (row + x * 3) img.lsb_first 0
  unfolding read_pixel
  read24 e = elim (Bool-cases img.lsb_first) [
    | inl lsb ↦ ground (arith, byte_at 3 0, byte_at 3 1, byte_at 3 2)
    | inr msb ↦ ground (arith, byte_at 3 0, byte_at 3 1, byte_at 3 2)
  ]

  read32 :
      img.bits_per_pixel ≡ 32
      → rgb_bytes (read_pixel img row x) ≡ stored img.memory (row + x * 4) img.lsb_first 1
  unfolding read_pixel
  read32 e = elim (Bool-cases img.lsb_first) [
    | inl lsb ↦ ground (arith, byte_at 4 0, byte_at 4 1, byte_at 4 2)
    | inr msb ↦ ground (arith, byte_at 4 1, byte_at 4 2, byte_at 4 3)
  ]

  -- It is the pixel's colours.
  pub read_pixel-colours :
      ((i : ℕ) → IsByte (img.memory i))
      → (img.bits_per_pixel == 24 || img.bits_per_pixel == 32) ≡ true
      → rgb_bytes (read_pixel img row x)
        ≡ colours (
            value_at img.lsb_first img.memory
              (row + x * (img.bits_per_pixel / 8))
              (img.bits_per_pixel / 8))
  read_pixel-colours octets depth = elim (Bool-cases (img.bits_per_pixel == 24)) [
    | inl is24 ↦
        let size : 3 ≡ img.bits_per_pixel / 8 = ground arith in
        read24 (ground arith)
        ∙ sym (colours24 img.memory octets (row + x * 3) img.lsb_first)
        ∙ ap (λ (n : ℕ). colours (value_at img.lsb_first img.memory (row + x * n) n)) size
    | inr not24 ↦
        let size : 4 ≡ img.bits_per_pixel / 8 = ground arith in
        read32 (ground arith)
        ∙ sym (colours32 img.memory octets (row + x * 4) img.lsb_first)
        ∙ ap (λ (n : ℕ). colours (value_at img.lsb_first img.memory (row + x * n) n)) size
  ]
