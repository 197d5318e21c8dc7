-- ===== src/ConfigMaps/Entries.antt =====
-- The properties of `data` as a map: what a name has after they are changed or sorted.
use hellogit.Common.{
  Text, text_eq, text_eq-eq, text_eq_sym, text_eq_trans, ◌≡◌, refl, sym, ap, Bool, true, false, not,
  ◌&&◌, ◌||◌, none, some, [], ◌∷◌, arith, if◌then◌else◌,
}
use hellogit.Common.Sort.{insert, sort}
use hellogit.ConfigMaps.Types.{Data, get, put, remove}

abbrev pub has : Text → Data → Bool
has name [] = false
has name ((k, v) ∷ d) = text_eq k name || has name d

-- No name stands twice.
abbrev pub is_keyed : Data → Bool
is_keyed [] = true
is_keyed ((k, v) ∷ d) = not (has k d) && is_keyed d

get-none : (d : Data) (k : Text) → has k d ≡ false → get d k ≡ none
get-none [] k h = refl
get-none ((n, v) ∷ d) k h = ground (arith, get-none d k)

-- A name that equals one that is not there is not there.
has_eq : (d : Data) (n k : Text) → text_eq n k ≡ true → has k d ≡ has n d
has_eq d n k h = ap (λ x. has x d) (sym (text_eq-eq n k h))

pub get-put :
    (n v : Text) (d : Data) (k : Text)
    → get (put n v d) k ≡ (if text_eq n k then some v else get d k)
get-put n v [] k = refl
get-put n v ((m, w) ∷ d) k = ground (
  arith,
  get-put n v d k,
  text_eq_trans m n k,
  text_eq_trans n m k,
  text_eq_trans m k n,
  text_eq_sym m n,
  text_eq_sym n k,
)

pub get-remove :
    (n : Text) (d : Data) (k : Text)
    → is_keyed d ≡ true
    → get (remove n d) k ≡ (if text_eq n k then none else get d k)
get-remove n [] k h = ground arith
get-remove n ((m, w) ∷ d) k h = ground (
  arith,
  get-remove n d k,
  get-none d k,
  has_eq d m k,
  text_eq_trans m n k,
  text_eq_trans n m k,
  text_eq_trans m k n,
  text_eq_sym m n,
  text_eq_sym n k,
)

has-put : (n v : Text) (d : Data) (k : Text) → has k (put n v d) ≡ (text_eq n k || has k d)
has-put n v [] k = refl
has-put n v ((m, w) ∷ d) k =
    ground (arith, has-put n v d k, text_eq_trans m n k, text_eq_trans n m k, text_eq_sym m n)

pub put-keyed : (n v : Text) (d : Data) → is_keyed d ≡ true → is_keyed (put n v d) ≡ true
put-keyed n v [] h = refl
put-keyed n v ((m, w) ∷ d) h = ground (arith, put-keyed n v d, has-put n v d m, text_eq_sym m n)

has-remove : (n : Text) (d : Data) (k : Text) → has k d ≡ false → has k (remove n d) ≡ false
has-remove n [] k h = refl
has-remove n ((m, w) ∷ d) k h = ground (arith, has-remove n d k)

pub remove-keyed : (n : Text) (d : Data) → is_keyed d ≡ true → is_keyed (remove n d) ≡ true
remove-keyed n [] h = refl
remove-keyed n ((m, w) ∷ d) h = ground (arith, remove-keyed n d, has-remove n d m)

module _ (le : Text × Text → Text × Text → Bool) where
  has-insert :
      (x : Text × Text) (d : Data) (k : Text) → has k (insert le x d) ≡ (text_eq x.0 k || has k d)
  has-insert x [] k = refl
  has-insert x (y ∷ d) k = ground (arith, has-insert x d k)

  insert-keyed :
      (x : Text × Text) (d : Data)
      → has x.0 d ≡ false
      → is_keyed d ≡ true
      → is_keyed (insert le x d) ≡ true
  insert-keyed x [] n h = refl
  insert-keyed x (y ∷ d) n h =
      ground (arith, insert-keyed x d, has-insert x d y.0, text_eq_sym x.0 y.0)

  get-insert :
      (x : Text × Text) (d : Data) (k : Text)
      → has x.0 d ≡ false
      → get (insert le x d) k ≡ get (x ∷ d) k
  get-insert x [] k n = refl
  get-insert x (y ∷ d) k n =
      ground (arith, get-insert x d k, text_eq_trans y.0 k x.0, text_eq_sym x.0 k)

  has-sort : (d : Data) (k : Text) → has k (sort le d) ≡ has k d
  has-sort [] k = refl
  has-sort (x ∷ d) k = ground (arith, has-insert x (sort le d) k, has-sort d k)

  pub sort-keyed : (d : Data) → is_keyed d ≡ true → is_keyed (sort le d) ≡ true
  sort-keyed [] h = refl
  sort-keyed (x ∷ d) h = ground (arith, sort-keyed d, insert-keyed x (sort le d), has-sort d x.0)

  pub get-sort : (d : Data) (k : Text) → is_keyed d ≡ true → get (sort le d) k ≡ get d k
  get-sort [] k h = refl
  get-sort (x ∷ d) k h = ground (arith, get-sort d k, get-insert x (sort le d) k, has-sort d x.0)
