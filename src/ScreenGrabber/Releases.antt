-- ===== src/ScreenGrabber/Releases.antt =====
-- screen_grabber.cc: what `GrabAsPNG` has freed when it ends.
use cpp_remote_screen_captur.Base.{
  ℕ, zero, suc, ◌≡◌, refl, ap, ◌∙◌, List, [], ◌∷◌, ◌++◌, Bool, true, false, Option, none, some,
  if◌then◌else◌,
}
use cpp_remote_screen_captur.Base.Int.{ℤ, pos, negsuc}
use cpp_remote_screen_captur.UniqueResource.{
  make_unique, make_unique_display, make_unique_ximage, valid, release, reset, freed_by,
  move_construct,
}
use cpp_remote_screen_captur.Client.State.{no_display}
use cpp_remote_screen_captur.Client.Loop.{Grab, failed_grab}
use cpp_remote_screen_captur.ScreenGrabber.{Screen, XImage, with_size, grab_as_png}
use cpp_remote_screen_captur.ScreenGrabber.Scoped.{
  Freed, close_display, destroy_image, Pointers, got, threw, return_valid, open_display,
  capture_image, measured, with_unique_display, grab_scoped,
}

-- `XGetImage` is called, and gives an image.
abbrev pub has_image : Option (ℤ × ℤ) → Option XImage → Bool
has_image (some (pos (suc width), pos (suc height))) (some img) = true
has_image _ _ = false

-- What has been acquired is freed, the image before the display.
abbrev pub due : Screen → Pointers → List Freed
due sys p =
    if sys.display
    then (if has_image sys.attributes sys.image then destroy_image p.image ∷ [] else [])
      ++ close_display p.display ∷ []
    else []

open_display-some : (d : ℕ) → open_display (some d) ≡ (got (make_unique (some d)), [])
unfolding open_display return_valid make_unique_display make_unique valid release reset freed_by
    move_construct
open_display-some d = refl

open_display-none : open_display none ≡ (threw no_display, [])
unfolding open_display return_valid make_unique_display make_unique valid reset freed_by
open_display-none = refl

measured-released :
    (sys : Screen) (p : Pointers) (size : Option (ℤ × ℤ)) (image : Option XImage)
    → sys.image ≡ image
    → measured sys p size
      ≡ (with_size sys size, if has_image size image then destroy_image p.image ∷ [] else [])
unfolding capture_image return_valid make_unique_ximage make_unique valid release reset freed_by
    move_construct
measured-released sys p none image e = refl
measured-released sys p (some (pos zero, h)) image e = refl
measured-released sys p (some (negsuc n, h)) image e = refl
measured-released sys p (some (pos (suc w), pos zero)) image e = refl
measured-released sys p (some (pos (suc w), negsuc n)) image e = refl
measured-released sys p (some (pos (suc w), pos (suc h))) none e = rw e refl
measured-released sys p (some (pos (suc w), pos (suc h))) (some img) e = rw e refl

displayed :
    (sys : Screen) (p : Pointers) (b : Bool)
    → with_unique_display sys p (open_display (if b then some p.display else none)) ≡ (
      if b then with_size sys sys.attributes else failed_grab no_display,
      if b
          then (if has_image sys.attributes sys.image then destroy_image p.image ∷ [] else [])
            ++ close_display p.display ∷ []
          else [],
    )
unfolding make_unique reset freed_by
displayed sys p true =
    ap (with_unique_display sys p) (open_display-some p.display)
    ∙ ap (λ (q : Grab × List Freed). (q.0, q.1 ++ close_display p.display ∷ []))
        (measured-released sys p sys.attributes sys.image refl)
displayed sys p false = ap (with_unique_display sys p) open_display-none

-- However `GrabAsPNG` ends, its result or error is that of the model without owners, and it has
-- freed exactly what X11 gave it, once: the image first, if it got one, and the display last.
pub grab_scoped-releases :
    (sys : Screen) (p : Pointers) → grab_scoped sys p ≡ (grab_as_png sys, due sys p)
unfolding grab_scoped grab_as_png
grab_scoped-releases sys p = displayed sys p sys.display
