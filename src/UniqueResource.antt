-- ===== src/UniqueResource.antt =====
-- common/include/unique_resource.h and common/src/resource_factory.cc: an owner of a resource that
-- calls a deleter. `none` is the template's `InvalidValue`. The deleters of the factory call one
-- function of the system each; what they are called with is written down.
pub mod Ownership
use cpp_remote_screen_captur.Base.{
  ℕ, zero, List, [], ◌∷◌, ◌++◌, Bool, true, false, Option, none, some, ◌==◌, if◌then◌else◌, get_or,
  set,
}
use cpp_remote_screen_captur.Base.Int.{ℤ, pos, negsuc}

-- `freed` holds what the deleter has been called with, oldest first.
pub record UniqueResource {ℓ} (A : Type ℓ) : Type ℓ where
  pub resource : Option A
  pub freed : List A

module _ {ℓ} {A : Type ℓ} where
  -- The constructor.
  unfoldable pub make_unique : Option A → UniqueResource A
  make_unique resource = record { resource = resource; freed = [] }

  unfoldable pub valid : UniqueResource A → Bool
  valid u = elim u.resource [ none ↦ false | some r ↦ true ]

  -- The deleter is called on a valid resource only.
  unfoldable pub freed_by : Option A → List A
  freed_by none = []
  freed_by (some r) = r ∷ []

  unfoldable pub reset : UniqueResource A → UniqueResource A
  unfolding freed_by
  reset u = record { resource = none; freed = u.freed ++ freed_by u.resource }

  -- `std::exchange(other._resource, InvalidValue)`: the resource, and the other object after it.
  unfoldable pub release : UniqueResource A → Option A × UniqueResource A
  release other = (other.resource, record other { resource = none })

  -- The move constructor: the new object and the other one.
  unfoldable pub move_construct : UniqueResource A → UniqueResource A × UniqueResource A
  unfolding make_unique release
  move_construct other = let (r, other') = release other in (make_unique r, other')

  -- The move assignment between two different objects.
  unfoldable pub move_assign :
      UniqueResource A → UniqueResource A → UniqueResource A × UniqueResource A
  unfolding reset release
  move_assign this other =
      let cleared = reset this in
      let (r, other') = release other in (record cleared { resource = r }, other')

-- The owner of a descriptor, with -1 for `InvalidValue`, and those of the pointers of X11, by their
-- addresses.
abbrev pub UniqueFd : Type 0
UniqueFd = UniqueResource ℤ

unfoldable pub make_unique_fd : ℤ → UniqueFd
unfolding make_unique
make_unique_fd (negsuc zero) = make_unique none
make_unique_fd fd = make_unique (some fd)

abbrev pub UniqueXImage : Type 0
UniqueXImage = UniqueResource ℕ

unfoldable pub make_unique_ximage : Option ℕ → UniqueXImage
unfolding make_unique
make_unique_ximage img = make_unique img

abbrev pub UniqueDisplay : Type 0
UniqueDisplay = UniqueResource ℕ

unfoldable pub make_unique_display : Option ℕ → UniqueDisplay
unfolding make_unique
make_unique_display disp = make_unique disp

-- Objects in a store, by number; one that is not there owns nothing.
abbrev pub empty : UniqueResource ℕ
empty = record { resource = none; freed = [] }

abbrev pub Store : Type 0
Store = List (UniqueResource ℕ)

-- What a program does with its objects: `objects[i] = Make(r)`, `objects[i] = std::move(objects[j])`
-- and `objects[i].Reset()`, which is the destructor too.
pub data Op : Type 0 where
  adopt : ℕ → ℕ → Op
  move : ℕ → ℕ → Op
  drop_at : ℕ → Op

-- `this != &other`: an assignment of an object to itself does nothing.
unfoldable pub assign_at : ℕ → ℕ → Store → Store
unfolding move_assign
assign_at i j store =
    if i == j
    then store
    else let (a, b) = move_assign (get_or store i empty) (get_or store j empty) in
      set (set store i a) j b

unfoldable pub step : Op → Store → Store
unfolding assign_at reset make_unique move_assign
step (adopt i r) store = set store i (move_assign (get_or store i empty) (make_unique (some r))).0
step (move i j) store = assign_at i j store
step (drop_at i) store = set store i (reset (get_or store i empty))

unfoldable pub run : List Op → Store → Store
unfolding step
run [] store = store
run (op ∷ ops) store = run ops (step op store)
