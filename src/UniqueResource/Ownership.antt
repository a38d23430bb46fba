-- ===== src/UniqueResource/Ownership.antt =====
-- How often a resource is owned and has been freed, over a program's operations.
use cpp_remote_screen_captur.Base.{
  ℕ, zero, suc, ◌+◌, ◌<◌, ◌≡◌, ◌≢◌, refl, List, [], ◌∷◌, ◌++◌, Option, none, some, ◌==◌,
  if◌then◌else◌, get_or, set, length, arith, ==_iff, length-set, All, if-cases, ap, ◌∙◌, subst, sym,
}
use cpp_remote_screen_captur.UniqueResource.{
  UniqueResource, Store, Op, adopt, move, drop_at, empty, assign_at, step, run, reset, freed_by,
  move_assign, make_unique,
}

pub count : ℕ → List ℕ → ℕ
count r [] = 0
count r (x ∷ xs) = (if x == r then 1 else 0) + count r xs

owned : ℕ → Option ℕ → ℕ
owned r none = 0
owned r (some x) = if x == r then 1 else 0

-- How often the resource `r` is owned by an object or has been freed by it.
pub held : ℕ → UniqueResource ℕ → ℕ
held r u = owned r u.resource + count r u.freed

pub tally : ℕ → Store → ℕ
tally r [] = 0
tally r (u ∷ us) = held r u + tally r us

count-append : (r : ℕ) (xs ys : List ℕ) → count r (xs ++ ys) ≡ count r xs + count r ys
unfolding count
count-append r [] ys = omega arith
count-append r (x ∷ xs) ys = omega (arith, count-append r xs ys)

count-freed_by : (r : ℕ) (o : Option ℕ) → count r (freed_by o) ≡ owned r o
unfolding count freed_by owned
count-freed_by r none = refl
count-freed_by r (some x) = omega arith

held-reset : (r : ℕ) (u : UniqueResource ℕ) → held r (reset u) ≡ held r u
unfolding held reset owned
held-reset r u =
    omega (arith, count-append r u.freed (freed_by u.resource), count-freed_by r u.resource)

held-move :
    (r : ℕ) (this other : UniqueResource ℕ)
    → held r (move_assign this other).0 + held r (move_assign this other).1
      ≡ held r this + held r other
unfolding held move_assign owned
held-move r this other =
    omega
      (arith, count-append r this.freed (freed_by this.resource), count-freed_by r this.resource)

held-adopt :
    (r : ℕ) (u : UniqueResource ℕ) (x : ℕ)
    → held r (move_assign u (make_unique (some x))).0 ≡ held r u + (if x == r then 1 else 0)
unfolding held move_assign make_unique owned
held-adopt r u x =
    omega (arith, count-append r u.freed (freed_by u.resource), count-freed_by r u.resource)

tally-set :
    (r i : ℕ) (store : Store) (a : UniqueResource ℕ)
    → i < length store
    → tally r (set store i a) + held r (get_or store i empty) ≡ tally r store + held r a
unfolding tally
tally-set r i [] a h = absurd (omega arith)
tally-set r zero (u ∷ us) a h = omega arith
tally-set r (suc i) (u ∷ us) a h = omega (arith, tally-set r i us a (omega arith))

get_or-set_ne :
    (i j : ℕ) (store : Store) (a : UniqueResource ℕ)
    → i ≢ j
    → get_or (set store i a) j empty ≡ get_or store j empty
get_or-set_ne i j [] a h = refl
get_or-set_ne zero zero (u ∷ us) a h = absurd (h refl)
get_or-set_ne zero (suc j) (u ∷ us) a h = refl
get_or-set_ne (suc i) zero (u ∷ us) a h = refl
get_or-set_ne (suc i) (suc j) (u ∷ us) a h = get_or-set_ne i j us a (λ e. h (ap suc e))

tally-assign :
    (r i j : ℕ) (store : Store)
    → i < length store
    → j < length store
    → tally r (assign_at i j store) ≡ tally r store
unfolding assign_at
tally-assign r i j store hi hj =
    let u = get_or store i empty in
    let w = get_or store j empty in
    if-cases (λ (s : Store). tally r s ≡ tally r store) (i == j) _ _ (λ _. refl)
      λ ne.
        let d : i ≢ j = λ e. ground (arith, ==_iff i j) in
        let a = (move_assign u w).0 in
        omega (
          arith,
          tally-set r i store a hi,
          tally-set r j (set store i a) (move_assign u w).1 (omega (arith, length-set store i a)),
          ap (held r) (get_or-set_ne i j store a d),
          held-move r u w,
        )

abbrev pub InRange : ℕ → Op → Type 0
InRange n (adopt i r) = i < n
InRange n (move i j) = (i < n) × (j < n)
InRange n (drop_at i) = i < n

-- How often the program takes the resource from the system.
pub acquired : ℕ → List Op → ℕ
acquired r [] = 0
acquired r (adopt i x ∷ ops) = (if x == r then 1 else 0) + acquired r ops
acquired r (move i j ∷ ops) = acquired r ops
acquired r (drop_at i ∷ ops) = acquired r ops

acquired-cons :
    (r : ℕ) (op : Op) (ops : List Op)
    → acquired r (op ∷ ops) ≡ acquired r (op ∷ []) + acquired r ops
unfolding acquired
acquired-cons r (adopt i x) ops = omega arith
acquired-cons r (move i j) ops = omega arith
acquired-cons r (drop_at i) ops = omega arith

length-step : (op : Op) (store : Store) → length (step op store) ≡ length store
unfolding step
length-step (adopt i r) store = length-set store i _
length-step (move i j) store = length-assign
  where
    length-assign : length (assign_at i j store) ≡ length store
    length-assign =
        if-cases (λ (s : Store). length s ≡ length store) (i == j) _ _ (λ _. refl)
          (λ _. length-set _ j _ ∙ length-set store i _)
length-step (drop_at i) store = length-set store i _

tally-step :
    (r : ℕ) (op : Op) (store : Store)
    → InRange (length store) op
    → tally r (step op store) ≡ tally r store + acquired r (op ∷ [])
unfolding step acquired
tally-step r (adopt i x) store h =
    let u = get_or store i empty in
    let m = make_unique (some x) in
    omega (arith, tally-set r i store (move_assign u m).0 h, held-adopt r u x)
tally-step r (move i j) store h = omega (arith, tally-assign r i j store h.0 h.1)
tally-step r (drop_at i) store h = omega (
  arith,
  tally-set r i store (reset (get_or store i empty)) h,
  held-reset r (get_or store i empty),
)

-- However a program makes, moves, assigns to itself and destroys the objects of a store, each
-- resource is owned or has been freed as often in all as it was at first and has been acquired
-- since: none is freed twice, and none is lost.
pub tally-run :
    (r : ℕ) (ops : List Op) (store : Store)
    → All (InRange (length store)) ops
    → tally r (run ops store) ≡ tally r store + acquired r ops
unfolding run
tally-run r [] store h = unfold acquired in omega arith
tally-run r (op ∷ ops) store h = omega (
  arith,
  tally-step r op store h.0,
  acquired-cons r op ops,
  tally-run r ops (step op store)
      (subst (λ n. All (InRange n) ops) (sym (length-step op store)) h.1),
)
