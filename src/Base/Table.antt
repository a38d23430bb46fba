-- ===== src/Base/Table.antt =====
-- A map from descriptors as an association list.
use cpp_remote_screen_captur.Base.Tests.{◌==◌, if◌then◌else◌, ==_iff, Bool-cases}
use mathlib.Core.Logic.{◌≢◌, ◌⊎◌, inl, inr}
use Prim.Native.Nat.{ℕ}
use mathlib.Core.Path.{◌≡◌, refl}
use mathlib.Core.List.{List, [], ◌∷◌}
use mathlib.Core.Option.{Option, none, some}
use native.Mathlib.Omega.{arith}

module _ {ℓ} {A : Type ℓ} where
  unfoldable pub find : ℕ → List (ℕ × A) → Option A
  find k [] = none
  find k ((j, v) ∷ t) = if j == k then some v else find k t

  unfoldable pub put : ℕ → A → List (ℕ × A) → List (ℕ × A)
  put k v [] = (k, v) ∷ []
  put k v ((j, w) ∷ t) = if j == k then (k, v) ∷ t else (j, w) ∷ put k v t

  unfoldable pub erase : ℕ → List (ℕ × A) → List (ℕ × A)
  erase k [] = []
  erase k ((j, v) ∷ t) = if j == k then erase k t else (j, v) ∷ erase k t

  pub find-put :
      (k j : ℕ) (v : A) (t : List (ℕ × A))
      → find j (put k v t) ≡ (if k == j then some v else find j t)
  unfolding find put
  find-put k j v [] = refl
  find-put k j v ((i, w) ∷ t) = ground (arith, find-put k j v t)

  pub find-erase :
      (k j : ℕ) (t : List (ℕ × A)) → find j (erase k t) ≡ (if k == j then none else find j t)
  unfolding find erase
  find-erase k j [] = ground arith
  find-erase k j ((i, w) ∷ t) = ground (arith, find-erase k j t)

  pub find-put_self : (k : ℕ) (v : A) (t : List (ℕ × A)) → find k (put k v t) ≡ some v
  find-put_self k v t = ground (arith, find-put k k v t)

  pub find-put_ne : (k j : ℕ) (v : A) (t : List (ℕ × A)) → k ≢ j → find j (put k v t) ≡ find j t
  find-put_ne k j v t h = ground (arith, find-put k j v t, ==_iff k j)

  pub find-erase_ne : (k j : ℕ) (t : List (ℕ × A)) → k ≢ j → find j (erase k t) ≡ find j t
  find-erase_ne k j t h = ground (arith, find-erase k j t, ==_iff k j)

  pub find-erase_self : (k : ℕ) (t : List (ℕ × A)) → find k (erase k t) ≡ none
  find-erase_self k t = ground (arith, find-erase k k t)

  -- What is found after a `put` is what was put, or was there before.
  pub find-put-cases :
      (k j : ℕ) (v w : A) (t : List (ℕ × A))
      → find j (put k v t) ≡ some w
      → ((k ≡ j) × (v ≡ w)) ⊎ ((k ≢ j) × (find j t ≡ some w))
  find-put-cases k j v w t e = elim (Bool-cases (k == j)) [
    | inl same ↦ inl (ground (arith, find-put k j v t, ==_iff k j))
    | inr other ↦ inr ((λ h. ground (arith, ==_iff k j)), ground (arith, find-put k j v t))
  ]

  pub find-erase-cases :
      (k j : ℕ) (w : A) (t : List (ℕ × A))
      → find j (erase k t) ≡ some w
      → (k ≢ j) × (find j t ≡ some w)
  find-erase-cases k j w t e =
      ((λ h. ground (arith, find-erase k j t, ==_iff k j)), ground (arith, find-erase k j t))
