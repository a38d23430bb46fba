-- ===== src/ScreenGrabber/Scoped.antt =====
-- screen_grabber.cc: `GrabAsPNG` with its owners of the display and of the image, which are freed
-- where their scopes end, by a return or by what is thrown.
use cpp_remote_screen_captur.Base.{ℕ, suc, List, [], ◌++◌, map, Option, none, some, if◌then◌else◌}
use cpp_remote_screen_captur.Base.Int.{ℤ, pos}
use cpp_remote_screen_captur.UniqueResource.{
  UniqueResource, make_unique_display, make_unique_ximage, valid, reset, move_construct,
}
use cpp_remote_screen_captur.Client.State.{
  GrabberError, no_display, no_attributes, no_image, invalid_size,
}
use cpp_remote_screen_captur.Client.Loop.{Grab, failed_grab}
use cpp_remote_screen_captur.ScreenGrabber.{Screen, XImage, with_image}

-- The calls that free something, with the pointers that they get.
pub data Freed : Type 0 where
  close_display destroy_image : ℕ → Freed

-- The pointers that `XOpenDisplay` and `XGetImage` give where they succeed.
pub record Pointers : Type 0 where
  pub display : ℕ
  pub image : ℕ

pub data Opening : Type 0 where
  got : UniqueResource ℕ → Opening
  threw : GrabberError → Opening

-- The end of `OpenDisplay` and of `CaptureImage`: the local owner is returned by a move if it is
-- valid; then, or when the error is thrown, it is destroyed. The list is what it has freed.
unfoldable pub return_valid : GrabberError → UniqueResource ℕ → Opening × List ℕ
unfolding valid reset move_construct
return_valid e u =
    if valid u
    then (let (result, moved) = move_construct u in (got result, (reset moved).freed))
    else (threw e, (reset u).freed)

unfoldable pub open_display : Option ℕ → Opening × List ℕ
unfolding return_valid make_unique_display
open_display disp = return_valid no_display (make_unique_display disp)

unfoldable pub capture_image : Option ℕ → Opening × List ℕ
unfolding return_valid make_unique_ximage
capture_image x_img = return_valid no_image (make_unique_ximage x_img)

-- The rest of `GrabAsPNG` under the owner of the image, which is valid; `image` is what X11 gave.
abbrev pub with_unique_image : Screen → ℕ → ℕ → Option XImage → Opening × List ℕ → Grab × List Freed
with_unique_image sys width height image (threw e, freed) = (failed_grab e, map destroy_image freed)
with_unique_image sys width height image (got img, freed) = (
  with_image sys width height image,
  map destroy_image freed ++ map destroy_image (reset img).freed,
)

abbrev pub pointer_of : ℕ → Option XImage → Option ℕ
pointer_of x_img none = none
pointer_of x_img (some img) = some x_img

abbrev pub measured : Screen → Pointers → Option (ℤ × ℤ) → Grab × List Freed
measured sys p none = (failed_grab no_attributes, [])
measured sys p (some (pos (suc width), pos (suc height))) =
    with_unique_image sys (suc width) (suc height) sys.image
      (capture_image (pointer_of p.image sys.image))
measured sys p (some _) = (failed_grab invalid_size, [])

-- The rest of `GrabAsPNG` under the owner of the display, which is destroyed last.
abbrev pub with_unique_display : Screen → Pointers → Opening × List ℕ → Grab × List Freed
with_unique_display sys p (threw e, freed) = (failed_grab e, map close_display freed)
with_unique_display sys p (got disp, freed) =
    let (result, inner) = measured sys p sys.attributes in
    (result, map close_display freed ++ (inner ++ map close_display (reset disp).freed))

unfoldable pub grab_scoped : Screen → Pointers → Grab × List Freed
unfolding open_display
grab_scoped sys p =
    with_unique_display sys p (open_display (if sys.display then some p.display else none))
