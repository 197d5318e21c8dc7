-- ===== src/Policy/Filter/Tests.antt =====
-- The theorems on the filter, applied.
use hellogit.Common.{
  Text, trim, trim_start, trim_end, is_space, ℕ, ◌≡◌, refl, ap, ◌↔◌, true, false, List, [], ◌∷◌,
  ◌++◌, map, ◌+◌, leb, ◌&&◌, if◌then◌else◌,
}
use hellogit.Policy.Filter.{
  Value, undef, null, text, object, nil, cons, filter_predicate, row_text, nested_filter_check,
  nested_filter_checks, includes,
}
use hellogit.Policy.Filter.Shown.{Infix, texts_of_row, concat, filter_predicate_iff}

-- The lower case of ASCII
abbrev lower : ℕ → ℕ
lower c = if leb b'A' c && leb c b'Z' then c + 32 else c

abbrev to_lower_case : Text → Text
to_lower_case = map lower

lower_append : (xs ys : Text) → to_lower_case (xs ++ ys) ≡ to_lower_case xs ++ to_lower_case ys
lower_append [] ys = refl
lower_append (x ∷ xs) ys = ap (λ zs. lower x ∷ zs) (lower_append xs ys)

-- An id, no rules, a name and a sensor.
abbrev row : List Value
row =
    text (b'1' ∷ [])
    ∷ null
    ∷ text (b'A' ∷ b'b' ∷ [])
    ∷ object (cons (object (cons (text (b'c' ∷ [])) (cons undef nil))) nil)
    ∷ []

-- The filter ` B` stands in the name, `1a` in the id and the name.
abbrev filter : Text
filter = b' ' ∷ b'B' ∷ []

across : filter_predicate to_lower_case row (b'1' ∷ b'a' ∷ []) ≡ true
unfolding filter_predicate row_text nested_filter_check nested_filter_checks includes trim_start
    trim_end is_space
across = refl

hidden : filter_predicate to_lower_case row (b'b' ∷ b'b' ∷ []) ≡ false
unfolding filter_predicate row_text nested_filter_check nested_filter_checks includes trim_start
    trim_end is_space
hidden = refl

filter_predicate_iff_example :
    (filter_predicate to_lower_case row filter ≡ true)
    ↔ Infix (to_lower_case (trim filter)) (to_lower_case (concat (texts_of_row row)))
filter_predicate_iff_example = filter_predicate_iff to_lower_case row filter

texts : texts_of_row row ≡ ((b'1' ∷ []) ∷ []) ++ (b'A' ∷ b'b' ∷ []) ∷ (b'c' ∷ []) ∷ []
unfolding texts_of_row
texts = refl

inside : Infix (to_lower_case (trim filter)) (to_lower_case (b'A' ∷ b'b' ∷ []))
unfolding trim_start trim_end is_space
inside = (b'a' ∷ [], [], refl)
