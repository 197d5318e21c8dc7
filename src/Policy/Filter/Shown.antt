-- ===== src/Policy/Filter/Shown.antt =====
-- Which rows the filter shows.
use hellogit.Common.{
  Text, trim, ◌≡◌, refl, sym, ap, subst, ◌∙◌, ◌↔◌, inl, inr, true, List, [], ◌∷◌, ◌++◌, arith, ◌==◌,
  Bool-cases,
}
use hellogit.Policy.Filter.{
  Value, undef, null, text, object, Values, nil, cons, undefined_text, nested_filter_check,
  nested_filter_checks, row_text, starts_with, includes, filter_predicate,
}

-- Somewhere in the text.
abbrev pub Infix : Text → Text → Type 0
Infix part xs = (pre : Text) × (post : Text) × (xs ≡ pre ++ (part ++ post))

append_assoc : (xs ys zs : Text) → (xs ++ ys) ++ zs ≡ xs ++ (ys ++ zs)
append_assoc [] ys zs = refl
append_assoc (x ∷ xs) ys zs = ap (λ ws. x ∷ ws) (append_assoc xs ys zs)

append_nil : (xs : Text) → xs ++ [] ≡ xs
append_nil [] = refl
append_nil (x ∷ xs) = ap (λ ws. x ∷ ws) (append_nil xs)

starts_with-append : (part post : Text) → starts_with part (part ++ post) ≡ true
starts_with-append [] post = refl
starts_with-append (c ∷ cs) post = ground (arith, starts_with-append cs post)

starts_with-prefix :
    (part xs : Text) → starts_with part xs ≡ true → (post : Text) × (xs ≡ part ++ post)
starts_with-prefix [] xs h = (xs, refl)
starts_with-prefix (c ∷ cs) [] h = cc
starts_with-prefix (c ∷ cs) (x ∷ xs) h = elim (Bool-cases (c == x)) [
  | inl e ↦ let (post, q) = starts_with-prefix cs xs (rw e at h) in (post, ground arith)
  | inr e ↦ ground arith
]

includes-Infix : (part xs : Text) → includes part xs ≡ true → Infix part xs
unfolding includes
includes-Infix part [] h = let (post, q) = starts_with-prefix part [] h in ([], post, q)
includes-Infix part (x ∷ xs) h = elim (Bool-cases (starts_with part (x ∷ xs))) [
  | inl e ↦ let (post, q) = starts_with-prefix part (x ∷ xs) e in ([], post, q)
  | inr e ↦
      let (pre, post, q) = includes-Infix part xs (rw e at h) in
      (x ∷ pre, post, ap (λ ws. x ∷ ws) q)
]

includes-start : (part xs : Text) → starts_with part xs ≡ true → includes part xs ≡ true
unfolding includes
includes-start part [] h = h
includes-start part (x ∷ xs) h = rw h refl

includes-append : (part pre post : Text) → includes part (pre ++ (part ++ post)) ≡ true
unfolding includes
includes-append part [] post = includes-start part (part ++ post) (starts_with-append part post)
includes-append part (x ∷ pre) post =
    elim (Bool-cases (starts_with part (x ∷ (pre ++ (part ++ post))))) [
      | inl e ↦ rw e refl
      | inr e ↦ rw e (includes-append part pre post)
    ]

-- The texts of the values in an object: those in its objects too, without undefined and null.
texts_in : Values → List Text
texts_in nil = []
texts_in (cons undef vs) = texts_in vs
texts_in (cons null vs) = texts_in vs
texts_in (cons (text t) vs) = t ∷ texts_in vs
texts_in (cons (object us) vs) = texts_in us ++ texts_in vs

texts_of : Value → List Text
texts_of undef = undefined_text ∷ []
texts_of null = []
texts_of (text t) = t ∷ []
texts_of (object vs) = texts_in vs

-- The texts of a row.
unfoldable pub texts_of_row : List Value → List Text
unfolding texts_of texts_in
texts_of_row [] = []
texts_of_row (v ∷ vs) = texts_of v ++ texts_of_row vs

abbrev pub concat : List Text → Text
concat [] = []
concat (t ∷ ts) = t ++ concat ts

concat-append : (ts us : List Text) → concat (ts ++ us) ≡ concat ts ++ concat us
concat-append [] us = refl
concat-append (t ∷ ts) us =
    ap (λ ws. t ++ ws) (concat-append ts us) ∙ sym (append_assoc t (concat ts) (concat us))

nested_lem :
    (search : Text) (vs : Values) → nested_filter_checks search vs ≡ search ++ concat (texts_in vs)
unfolding nested_filter_checks texts_in
nested_lem search nil = sym (append_nil search)
nested_lem search (cons undef vs) = nested_lem search vs
nested_lem search (cons null vs) = nested_lem search vs
nested_lem search (cons (text t) vs) =
    nested_lem (search ++ t) vs ∙ append_assoc search t (concat (texts_in vs))
nested_lem search (cons (object us) vs) =
    nested_lem (nested_filter_checks search us) vs
    ∙ ap (λ ws. ws ++ concat (texts_in vs)) (nested_lem search us)
    ∙ append_assoc search (concat (texts_in us)) (concat (texts_in vs))
    ∙ ap (λ ws. search ++ ws) (sym (concat-append (texts_in us) (texts_in vs)))

value_lem :
    (search : Text) (v : Value) → nested_filter_check search v ≡ search ++ concat (texts_of v)
unfolding nested_filter_check texts_of
value_lem search undef = ap (λ ws. search ++ ws) (sym (append_nil undefined_text))
value_lem search null = sym (append_nil search)
value_lem search (text t) = ap (λ ws. search ++ ws) (sym (append_nil t))
value_lem search (object vs) = nested_lem search vs

row_text_lem :
    (search : Text) (row : List Value) → row_text search row ≡ search ++ concat (texts_of_row row)
unfolding row_text texts_of_row
row_text_lem search [] = sym (append_nil search)
row_text_lem search (v ∷ vs) =
    row_text_lem (nested_filter_check search v) vs
    ∙ ap (λ ws. ws ++ concat (texts_of_row vs)) (value_lem search v)
    ∙ append_assoc search (concat (texts_of v)) (concat (texts_of_row vs))
    ∙ ap (λ ws. search ++ ws) (sym (concat-append (texts_of v) (texts_of_row vs)))

-- A row is shown exactly when the filter, trimmed and in lower case, stands somewhere in the texts
-- of the row and of its nested objects, written one after the other and in lower case: so it may
-- begin in one text and end in the next.
pub filter_predicate_iff :
    (to_lower_case : Text → Text) (row : List Value) (filter : Text)
    → (filter_predicate to_lower_case row filter ≡ true)
      ↔ Infix (to_lower_case (trim filter)) (to_lower_case (concat (texts_of_row row)))
unfolding filter_predicate
filter_predicate_iff to_lower_case row filter =
    let part = to_lower_case (trim filter) in
    let same : to_lower_case (row_text [] row) ≡ to_lower_case (concat (texts_of_row row)) =
      ap to_lower_case (row_text_lem [] row) in
    (
      λ h. subst (Infix part) same (includes-Infix part (to_lower_case (row_text [] row)) h),
      λ i.
          let (pre, post, q) = subst (Infix part) (sym same) i in
          subst (λ xs. includes part xs ≡ true) (sym q) (includes-append part pre post),
    )

Infix-append : (part pre xs post : Text) → Infix part xs → Infix part (pre ++ (xs ++ post))
Infix-append part pre xs post (a, b, q) = (
  pre ++ a,
  b ++ post,
  ap (λ ws. pre ++ (ws ++ post)) q
      ∙ ap (λ ws. pre ++ ws)
          (append_assoc a (part ++ b) post ∙ ap (λ ws. a ++ ws) (append_assoc part b post))
      ∙ sym (append_assoc pre a (part ++ (b ++ post))),
)

concat_at :
    (before after : List Text) (t : Text)
    → concat (before ++ t ∷ after) ≡ concat before ++ (t ++ concat after)
concat_at before after t = concat-append before (t ∷ after)

-- Where lower case goes text by text, a row with a text that contains the filter, the filter trimmed
-- and both in lower case, is shown.
pub filter_predicate-shows :
    (to_lower_case : Text → Text)
    → ((xs ys : Text) → to_lower_case (xs ++ ys) ≡ to_lower_case xs ++ to_lower_case ys)
    → (row : List Value) (filter : Text) (before after : List Text) (t : Text)
    → texts_of_row row ≡ before ++ t ∷ after
    → Infix (to_lower_case (trim filter)) (to_lower_case t)
    → filter_predicate to_lower_case row filter ≡ true
filter_predicate-shows to_lower_case append row filter before after t at i =
    let low =
      ap (λ ts. to_lower_case (concat ts)) at
      ∙ ap to_lower_case (concat_at before after t)
      ∙ append (concat before) (t ++ concat after)
      ∙ ap (λ ws. to_lower_case (concat before) ++ ws) (append t (concat after)) in
    (filter_predicate_iff to_lower_case row filter).1 (
      subst (Infix (to_lower_case (trim filter))) (sym low) (
        Infix-append (to_lower_case (trim filter)) (to_lower_case (concat before)) (to_lower_case t)
          (to_lower_case (concat after)) i))
