-- ===== src/ConfigMaps/Names.antt =====
-- Entries none of which has the name of an array index: JavaScript goes through them as they were put
-- in.
use hellogit.Common.{Text, ◌≡◌, refl, Bool, true, not, ◌&&◌, [], ◌∷◌, arith, keep}
use hellogit.Common.Sort.{insert, sort}
use hellogit.ConfigMaps.Types.{Data, put, remove, is_array_index, property_order}

-- The name is not that of an array index.
abbrev pub is_word : Text → Bool
is_word name = not (is_array_index name)

abbrev pub is_plain : Data → Bool
is_plain [] = true
is_plain ((k, v) ∷ d) = is_word k && is_plain d

pub put-plain :
    (n v : Text) (d : Data) → is_word n ≡ true → is_plain d ≡ true → is_plain (put n v d) ≡ true
put-plain n v [] w h = ground (arith, w)
put-plain n v ((k, u) ∷ d) w h = ground (arith, put-plain n v d w)

pub remove-plain : (n : Text) (d : Data) → is_plain d ≡ true → is_plain (remove n d) ≡ true
remove-plain n [] h = refl
remove-plain n ((k, u) ∷ d) h = ground (arith, remove-plain n d)

keep_none : (d : Data) → is_plain d ≡ true → keep (λ e. is_array_index e.0) d ≡ []
keep_none [] h = refl
keep_none ((k, v) ∷ d) h = ground (arith, keep_none d)

keep_all : (d : Data) → is_plain d ≡ true → keep (λ e. not (is_array_index e.0)) d ≡ d
keep_all [] h = refl
keep_all ((k, v) ∷ d) h = ground (arith, keep_all d)

pub property_order-plain : (d : Data) → is_plain d ≡ true → property_order d ≡ d
unfolding property_order
property_order-plain d h = rw (keep_none d h) (keep_all d h)

module _ (le : Text × Text → Text × Text → Bool) where
  insert-plain :
      (e : Text × Text) (d : Data)
      → is_word e.0 ≡ true
      → is_plain d ≡ true
      → is_plain (insert le e d) ≡ true
  insert-plain e [] w h = ground (arith, w)
  insert-plain e (f ∷ d) w h = ground (arith, insert-plain e d w)

  pub sort-plain : (d : Data) → is_plain d ≡ true → is_plain (sort le d) ≡ true
  sort-plain [] h = refl
  sort-plain (e ∷ d) h = ground (arith, sort-plain d, insert-plain e (sort le d))
