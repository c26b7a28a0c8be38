-- ===== src/Common/Lists.antt =====
-- Lists with native lengths, and Boolean membership.
use Prim.Native.Nat.{ℕ, suc, zero, ◌+◌}
use mathlib.Core.Path.{◌≡◌, refl, ap}
use mathlib.Core.Bool.{Bool, false, ◌||◌}
use mathlib.Core.Logic.{◌⊎◌, inl, inr}
use mathlib.Core.List.{List, [], ◌∷◌, ◌++◌}
use native.Mathlib.Omega.{arith}
use laneq.Common.Tests.{◌==◌}

module _ {ℓ} {A : Type ℓ} where
  abbrev pub length : List A → ℕ
  length [] = 0
  length (x ∷ xs) = suc (length xs)

  abbrev pub take : ℕ → List A → List A
  take zero xs = []
  take (suc n) [] = []
  take (suc n) (x ∷ xs) = x ∷ take n xs

  pub length-append : (xs ys : List A) → length (xs ++ ys) ≡ length xs + length ys
  length-append [] ys = omega arith
  length-append (x ∷ xs) ys = omega (arith, length-append xs ys)

  pub append_nil : (xs : List A) → xs ++ [] ≡ xs
  append_nil [] = refl
  append_nil (x ∷ xs) = ap (λ t. x ∷ t) (append_nil xs)

  pub append_assoc : (xs ys zs : List A) → (xs ++ ys) ++ zs ≡ xs ++ (ys ++ zs)
  append_assoc [] ys zs = refl
  append_assoc (x ∷ xs) ys zs = ap (λ t. x ∷ t) (append_assoc xs ys zs)

-- Python's `n in ns`.
abbrev pub mem : ℕ → List ℕ → Bool
mem n [] = false
mem n (m ∷ ms) = n == m || mem n ms

-- The value is in the list.
abbrev pub In : {A : Type 0} → A → List A → Type 0
In x [] = ⊥
In x (y ∷ ys) = (x ≡ y) ⊎ In x ys

module _ {A : Type 0} where
  pub In-append : (x : A) (ys zs : List A) → In x (ys ++ zs) → In x ys ⊎ In x zs
  In-append x [] zs h = inr h
  In-append x (y ∷ ys) zs (inl e) = inl (inl e)
  In-append x (y ∷ ys) zs (inr h) = elim (In-append x ys zs h) [
    | inl k ↦ inl (inr k)
    | inr k ↦ inr k
  ]

  pub In-append_left : (x : A) (ys zs : List A) → In x ys → In x (ys ++ zs)
  In-append_left x [] zs h = absurd h
  In-append_left x (y ∷ ys) zs (inl e) = inl e
  In-append_left x (y ∷ ys) zs (inr h) = inr (In-append_left x ys zs h)

  pub In-append_right : (x : A) (ys zs : List A) → In x zs → In x (ys ++ zs)
  In-append_right x [] zs h = h
  In-append_right x (y ∷ ys) zs h = inr (In-append_right x ys zs h)
