-- ===== src/Common/Sort.antt =====
-- `Array.prototype.sort`: a stable sort by a comparison. `le x y` says that the comparison of x
-- with y is not positive. The result of a stable sort by a consistent comparison is unique, so
-- insertion stands for whatever algorithm the engine runs.
use mathlib.Core.Path.{◌≡◌}
use mathlib.Core.Bool.{Bool, true}
use mathlib.Core.Logic.{◌⊎◌, inl, inr}
use mathlib.Core.List.{List, [], ◌∷◌, Perm}
use mathlib.Core.List.Perm
use hellogit.Common.Tests.{if◌then◌else◌, Bool-cases}
use hellogit.Common.Arrays.{All}

module _ {ℓ} {A : Type ℓ} (le : A → A → Bool) where
  abbrev pub insert : A → List A → List A
  insert x [] = x ∷ []
  insert x (y ∷ ys) = if le x y then x ∷ y ∷ ys else y ∷ insert x ys

  abbrev pub sort : List A → List A
  sort [] = []
  sort (x ∷ xs) = insert x (sort xs)

  abbrev pub IsSorted : List A → Type 0
  IsSorted [] = Unit
  IsSorted (x ∷ xs) = All (λ y. le x y ≡ true) xs × IsSorted xs

  pub insert-perm : (x : A) (xs : List A) → Perm (insert x xs) (x ∷ xs)
  insert-perm x [] = Perm.refl _
  insert-perm x (y ∷ ys) = elim (Bool-cases (le x y)) [
    | inl e ↦ rw e (Perm.refl _)
    | inr e ↦ rw e (Perm.trans (Perm.cons y (insert-perm x ys)) (Perm.swap x y ys))
  ]

  pub sort-perm : (xs : List A) → Perm (sort xs) xs
  sort-perm [] = Perm.refl _
  sort-perm (x ∷ xs) = Perm.trans (insert-perm x (sort xs)) (Perm.cons x (sort-perm xs))

-- The result is in order, if the comparison is total and transitive.
module _ {ℓ} {A : Type ℓ} (le : A → A → Bool)
    (total : (x y : A) → (le x y ≡ true) ⊎ (le y x ≡ true))
    (trans : (x y z : A) → le x y ≡ true → le y z ≡ true → le x z ≡ true) where
  All-le_trans :
      (x y : A) (ys : List A)
      → le x y ≡ true
      → All (λ z. le y z ≡ true) ys
      → All (λ z. le x z ≡ true) ys
  All-le_trans x y [] h k = tt
  All-le_trans x y (z ∷ zs) h (k, ks) = (trans x y z h k, All-le_trans x y zs h ks)

  All-insert : (P : A → Type 0) (x : A) (ys : List A) → P x → All P ys → All P (insert le x ys)
  All-insert P x [] p ps = (p, tt)
  All-insert P x (y ∷ ys) p (q, qs) = elim (Bool-cases (le x y)) [
    | inl e ↦ rw e (p, (q, qs))
    | inr e ↦ rw e (q, All-insert P x ys p qs)
  ]

  insert-IsSorted : (x : A) (ys : List A) → IsSorted le ys → IsSorted le (insert le x ys)
  insert-IsSorted x [] s = (tt, tt)
  insert-IsSorted x (y ∷ ys) (h, s) = elim (Bool-cases (le x y)) [
    | inl e ↦ rw e ((e, All-le_trans x y ys e h), (h, s))
    | inr e ↦ elim (total x y) [
      | inl f ↦ absurd (cc)
      | inr f ↦ rw e (All-insert (λ z. le y z ≡ true) x ys f h, insert-IsSorted x ys s)
    ]
  ]

  pub sort-IsSorted : (xs : List A) → IsSorted le (sort le xs)
  sort-IsSorted [] = tt
  sort-IsSorted (x ∷ xs) = insert-IsSorted x (sort le xs) (sort-IsSorted xs)
