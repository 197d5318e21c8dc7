-- ===== src/Common/Stores.antt =====
-- New objects in a store: the cells from an address on, which is the first that is free.
use Prim.Native.Nat.{ℕ, suc, ◌<◌}
use mathlib.Core.Path.{◌≡◌, refl, sym, ap, ◌∙◌}
use mathlib.Core.Logic.{◌≢◌, inl, inr}
use mathlib.Core.Bool.{Bool, ◌||◌}
use mathlib.Core.List.{List, [], ◌∷◌, map}
use native.Mathlib.Omega.{arith}
use hellogit.Common.Tests.{Bool-cases}
use hellogit.Common.Arrays.{keep, any, All, update, update_self, update-ne}

-- No address stands twice.
abbrev pub AreDistinct : List ℕ → Type 0
AreDistinct [] = Unit
AreDistinct (r ∷ rs) = All (λ s. r ≢ s) rs × AreDistinct rs

module _ {ℓ} {A : Type ℓ} where
  -- The objects, one after the other.
  unfoldable pub allocate : (ℕ → A) → ℕ → List A → ℕ → A
  allocate o n [] = o
  allocate o n (x ∷ xs) = allocate (update o n x) (suc n) xs

  -- Their addresses.
  unfoldable pub fresh : ℕ → List A → List ℕ
  fresh n [] = []
  fresh n (x ∷ xs) = n ∷ fresh (suc n) xs

  pub allocate_below : (o : ℕ → A) (n : ℕ) (xs : List A) (r : ℕ) → r < n → allocate o n xs r ≡ o r
  unfolding allocate
  allocate_below o n [] r h = refl
  allocate_below o n (x ∷ xs) r h = ground (arith, allocate_below (update o n x) (suc n) xs r)

  pub map-allocate : (o : ℕ → A) (n : ℕ) (xs : List A) → map (allocate o n xs) (fresh n xs) ≡ xs
  unfolding allocate fresh
  map-allocate o n [] = refl
  map-allocate o n (x ∷ xs) =
      rw (allocate_below (update o n x) (suc n) xs n (omega arith) ∙ update_self o n x)
        (ap (◌∷◌ x) (map-allocate (update o n x) (suc n) xs))

  -- A loop that writes to each object of an array in turn.
  unfoldable pub for_each : (A → A) → List ℕ → (ℕ → A) → ℕ → A
  for_each f [] o = o
  for_each f (r ∷ rs) o = for_each f rs (update o r (f (o r)))

  pub for_each_elsewhere :
      (f : A → A) (rs : List ℕ) (o : ℕ → A) (r : ℕ) → All (λ s. r ≢ s) rs → for_each f rs o r ≡ o r
  unfolding for_each
  for_each_elsewhere f [] o r h = refl
  for_each_elsewhere f (s ∷ rs) o r (ne, h) =
      for_each_elsewhere f rs (update o s (f (o s))) r h ∙ update-ne o _ ne

  map_elsewhere :
      (f : A → A) (o : ℕ → A) (r : ℕ) (v : A) (rs : List ℕ)
      → All (λ s. r ≢ s) rs
      → map (λ s. f (update o r v s)) rs ≡ map (λ s. f (o s)) rs
  map_elsewhere f o r v [] h = refl
  map_elsewhere f o r v (s ∷ rs) (ne, h) =
      rw (update-ne o {a = r} {b = s} v (λ e. ne (sym e)))
        (ap (◌∷◌ (f (o s))) (map_elsewhere f o r v rs h))

  -- If the objects are different, each is written to once.
  pub map-for_each :
      (f : A → A) (rs : List ℕ) (o : ℕ → A)
      → AreDistinct rs
      → map (for_each f rs o) rs ≡ map (λ r. f (o r)) rs
  unfolding for_each
  map-for_each f [] o h = refl
  map-for_each f (r ∷ rs) o (apart, h) =
      let o' = update o r (f (o r)) in
      let here : for_each f rs o' r ≡ f (o r) =
        for_each_elsewhere f rs o' r apart ∙ update_self o r (f (o r)) in
      rw here (ap (◌∷◌ (f (o r))) (map-for_each f rs o' h ∙ map_elsewhere f o r (f (o r)) rs apart))

module _ {ℓ κ} {A : Type ℓ} {B : Type κ} where
  pub map-keep :
      (f : A → B) (p : B → Bool) (xs : List A) → map f (keep (λ x. p (f x)) xs) ≡ keep p (map f xs)
  map-keep f p [] = refl
  map-keep f p (x ∷ xs) = elim (Bool-cases (p (f x))) [
    | inl e ↦ rw e (ap (◌∷◌ (f x)) (map-keep f p xs))
    | inr e ↦ rw e (map-keep f p xs)
  ]

  pub any-map : (f : A → B) (p : B → Bool) (xs : List A) → any (λ x. p (f x)) xs ≡ any p (map f xs)
  any-map f p [] = refl
  any-map f p (x ∷ xs) = ap (λ b. p (f x) || b) (any-map f p xs)
