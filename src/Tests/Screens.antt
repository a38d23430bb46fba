-- ===== src/Tests/Screens.antt =====
-- The screen grabber on a screen of one row.
use cpp_remote_screen_captur.Base.{
  ℕ, ◌≡◌, refl, List, [], ◌∷◌, ◌%◌, arith, none, some, true, length, inr,
}
use cpp_remote_screen_captur.Base.Int.{pos}
use cpp_remote_screen_captur.ScreenGrabber.{
  XImage, Screen, convert_to_rgb, grab_as_png, read_pixel, pixels_size,
}
use cpp_remote_screen_captur.Client.State.{no_image}
use cpp_remote_screen_captur.Client.Loop.{failed_grab}
use cpp_remote_screen_captur.ScreenGrabber.Scoped.{Pointers, close_display, grab_scoped}
use cpp_remote_screen_captur.ScreenGrabber.Releases.{grab_scoped-releases}
use cpp_remote_screen_captur.ScreenGrabber.Pixels.{
  IsImageOf, Fits, Taken, convert_to_rgb-image_bytes, grab_as_png-Taken,
}

abbrev pixels : List ℕ
pixels = 2 ∷ 1 ∷ 0 ∷ 6 ∷ 5 ∷ 4 ∷ []

-- Two pixels of 32 bits, of which byte `i` is `i`, modulo 256.
abbrev picture : XImage
picture = record {
  bits_per_pixel = 32;
  bytes_per_line = 8;
  lsb_first = true;
  memory = λ i. i % 256;
}

abbrev screen : Screen
screen = record {
  display = true;
  attributes = some (pos 2, pos 1);
  image = some picture;
  encode_png = λ octets width height. octets;
}

picture-IsImageOf : IsImageOf picture 2 1
picture-IsImageOf = record {
  octets = λ i. omega arith;
  row_holds = omega arith;
  rows_fit = omega arith;
  pixels_fit = omega arith;
}

convert_to_rgb-image_bytes_example :
    (convert_to_rgb picture 2 1 ≡ some pixels)
    × (length pixels ≡ pixels_size 2 1)
    × Fits picture 2 1 0 1
convert_to_rgb-image_bytes_example =
    convert_to_rgb-image_bytes picture 2 1 0 1 (inr refl) picture-IsImageOf (omega arith)
      (omega arith)

grab_as_png-Taken_example : Taken screen pixels
unfolding convert_to_rgb read_pixel
grab_as_png-Taken_example =
    grab_as_png-Taken screen {png = pixels} picture-IsImageOf (unfold grab_as_png in refl)

-- A screen whose image X11 does not give.
abbrev blank : Screen
blank = record screen { image = none }

abbrev pointers : Pointers
pointers = record { display = 100; image = 200 }

grab_scoped-releases_example :
    grab_scoped blank pointers ≡ (failed_grab no_image, close_display 100 ∷ [])
unfolding grab_as_png
grab_scoped-releases_example = grab_scoped-releases blank pointers
