-- ===== src/Policy/Filter.antt =====
-- The filter of the rule sets table: `filterPredicate` in `ngOnInit`, and `nested_filter_check_`.
pub mod Shown
mod Tests
unfoldable pub use hellogit.Common.{starts_with, includes}
use hellogit.Common.{Text, trim, Bool, true, false, List, [], ◌∷◌, ◌++◌, if◌then◌else◌, ◌==◌}

mutual
  -- A value of a row as `typeof` tells them apart: a text stands for any value that is no object, in
  -- the words that `+=` makes of it.
  pub data Value : Type 0 where
    undef null : Value
    text : Text → Value
    object : Values → Value

  -- The values of an object or an array, in the order of `for … in`.
  pub data Values : Type 0 where
    nil : Values
    cons : Value → Values → Values

abbrev pub undefined_text : Text
undefined_text = b'u' ∷ b'n' ∷ b'd' ∷ b'e' ∷ b'f' ∷ b'i' ∷ b'n' ∷ b'e' ∷ b'd' ∷ []

-- The loop of `nested_filter_check_` over an object, which leaves out undefined and null; the call
-- for each other value is written out.
unfoldable pub nested_filter_checks : Text → Values → Text
nested_filter_checks search nil = search
nested_filter_checks search (cons undef vs) = nested_filter_checks search vs
nested_filter_checks search (cons null vs) = nested_filter_checks search vs
nested_filter_checks search (cons (text t) vs) = nested_filter_checks (search ++ t) vs
nested_filter_checks search (cons (object us) vs) =
    nested_filter_checks (nested_filter_checks search us) vs

-- `nested_filter_check_`; null is an object for `typeof`, with nothing to go through.
unfoldable pub nested_filter_check : Text → Value → Text
nested_filter_check search undef = search ++ undefined_text
nested_filter_check search null = search
nested_filter_check search (text t) = search ++ t
nested_filter_check search (object vs) = nested_filter_checks search vs

-- `Object.keys(data).reduce(accumulator, '')`
unfoldable pub row_text : Text → List Value → Text
row_text search [] = search
row_text search (v ∷ vs) = row_text (nested_filter_check search v) vs

-- `filterPredicate`, with `toLowerCase` as a parameter
unfoldable pub filter_predicate : (Text → Text) → List Value → Text → Bool
unfolding row_text includes
filter_predicate to_lower_case row filter =
    includes (to_lower_case (trim filter)) (to_lower_case (row_text [] row))
