-- ===== src/Alerts/Queries.antt =====
-- The query of Kibana and the expression of Arkime, which loops write with a separator behind every
-- test and cut off the last.
use mathlib.Core.List.{append-nil, append_assoc}
use hellogit.Common.{
  Text, codes, take, length, join_with, ℕ, zero, suc, ◌+◌, ◌-◌, ◌≤◌, ◌≡◌, refl, sym, ap, ◌∙◌, Bool,
  true, false, not, Option, none, some, List, [], ◌∷◌, ◌++◌, map, keep, arith, if◌then◌else◌,
  length-append, Bool-cases, inl, inr,
}
use hellogit.Alerts.Types.{Value, Row}
use hellogit.Alerts.Links.{
  is_own, is_signal, term, query_loop, get_kibana_query, drop_end, arkime_field, arkime_test,
  add_test, arkime_loop, build_arkime_expression,
}

-- Every text with the separator behind it.
abbrev trailing : Text → List Text → Text
trailing separator [] = []
trailing separator (t ∷ ts) = t ++ (separator ++ trailing separator ts)

take_nil : (n : ℕ) → take {A = ℕ} n [] ≡ []
take_nil zero = refl
take_nil (suc n) = refl

take_all : (n : ℕ) (t : Text) → n ≡ length t → take n t ≡ t
take_all zero [] h = refl
take_all zero (c ∷ cs) h = absurd (omega arith)
take_all (suc n) [] h = refl
take_all (suc n) (c ∷ cs) h = ap (λ t. c ∷ t) (take_all n cs (omega arith))

take-append : (n : ℕ) (t u : Text) → take (length t + n) (t ++ u) ≡ t ++ take n u
take-append n [] u = ap (λ m. take m u) (omega arith)
take-append n (c ∷ cs) u =
    let e : suc (length cs) + n ≡ suc (length cs + n) = omega arith in
    rw e (ap (λ t. c ∷ t) (take-append n cs u))

drop_end-append : (n : ℕ) (t u : Text) → n ≤ length u → drop_end n (t ++ u) ≡ t ++ drop_end n u
drop_end-append n t u h =
    let e : length (t ++ u) - n ≡ length t + (length u - n) = omega (arith, length-append t u) in
    rw e (take-append (length u - n) t u)

length-trailing :
    (separator t : Text) (ts : List Text) → length separator ≤ length (trailing separator (t ∷ ts))
length-trailing separator t ts = omega (
  arith,
  length-append t (separator ++ trailing separator ts),
  length-append separator (trailing separator ts),
)

cut_last : (separator t : Text) → t ++ drop_end (length separator) (separator ++ []) ≡ t
cut_last separator t =
    let e : length (separator ++ []) - length separator ≡ 0 =
      omega (arith, length-append separator []) in
    rw e (append-nil t)

cut_lem :
    (separator : Text) (ts : List Text)
    → drop_end (length separator) (trailing separator ts) ≡ join_with separator ts
cut_lem separator [] = take_nil _
cut_lem separator (t ∷ []) =
    drop_end-append (length separator) t (separator ++ [])
      (omega (arith, length-append separator []))
    ∙ cut_last separator t
cut_lem separator (t ∷ u ∷ us) =
    drop_end-append (length separator) t _
      (omega (arith, length-append separator (trailing separator (u ∷ us))))
    ∙ ap (λ x. t ++ x)
        (drop_end-append (length separator) separator _ (length-trailing separator u us)
          ∙ ap (λ x. separator ++ x) (cut_lem separator (u ∷ us)))

-- The loop writes the tests of the fields, but its own, each with the separator behind it.
abbrev terms : Bool → Row → List Text
terms signal row = map (λ f. term signal f.0 f.1) (keep (λ f. not (is_own f.0)) row)

query_loop_lem :
    (signal : Bool) (row : Row) (so_far : Text)
    → query_loop signal row so_far ≡ so_far ++ trailing (codes " and ") (terms signal row)
unfolding query_loop
query_loop_lem signal [] so_far = sym (append-nil so_far)
query_loop_lem signal ((name, value) ∷ fields) so_far = elim (Bool-cases (is_own name)) [
  | inl e ↦ rw e (query_loop_lem signal fields so_far)
  | inr e ↦ rw e (
      query_loop_lem signal fields (so_far ++ (term signal name value ++ codes " and "))
      ∙ (append_assoc so_far (term signal name value ++ codes " and ") _
          ∙ ap (λ v. so_far ++ v) (append_assoc (term signal name value) (codes " and ") _)))
]

kibana_terms :
    (row : Row)
    → drop_end 5 (query_loop (is_signal row) row [])
      ≡ join_with (codes " and ") (terms (is_signal row) row)
kibana_terms row =
    ap (drop_end 5) (query_loop_lem (is_signal row) row [])
    ∙ cut_lem (codes " and ") (terms (is_signal row) row)

-- The query is the tests of the fields but `count`, `form` and `links`, in their order and with
-- `and` between them, and then, if the escalated alerts are chosen, the test for them.
pub get_kibana_query_lem :
    (escalated : Bool) (row : Row)
    → get_kibana_query escalated row
      ≡ join_with
          (codes " and ")
          (map (λ f. term (is_signal row) f.0 f.1) (keep (λ f. not (is_own f.0)) row))
        ++ (if escalated then codes " and event.escalated : true" else [])
unfolding get_kibana_query
get_kibana_query_lem true row =
    ap (λ t. t ++ codes " and event.escalated : true") (kibana_terms row)
get_kibana_query_lem false row = kibana_terms row ∙ sym (append-nil _)

abbrev pub gather {ℓ} : {A : Type ℓ} → Option A → List A → List A
gather none xs = xs
gather (some x) xs = x ∷ xs

-- The results that there are.
abbrev pub collect {ℓ κ} : {A : Type ℓ} {B : Type κ} → (A → Option B) → List A → List B
collect f [] = []
collect f (x ∷ xs) = gather (f x) (collect f xs)

abbrev pub test_of : Text × Value → Option Text
test_of (name, value) = if is_own name then none else arkime_test (arkime_field name) value

add_lem :
    (so_far : Text) (test : Option Text) (tests : List Text)
    → add_test so_far test ++ trailing (codes "%26%26%20") tests
      ≡ so_far ++ trailing (codes "%26%26%20") (gather test tests)
add_lem so_far none tests = refl
add_lem so_far (some t) tests =
    append_assoc so_far (t ++ codes "%26%26%20") _
    ∙ ap (λ v. so_far ++ v) (append_assoc t (codes "%26%26%20") _)

own_lem :
    (own : Bool) (so_far : Text) (test : Option Text)
    → (if own then so_far else add_test so_far test) ≡ add_test so_far (if own then none else test)
own_lem true so_far test = refl
own_lem false so_far test = refl

arkime_loop_lem :
    (row : Row) (so_far : Text)
    → arkime_loop row so_far ≡ so_far ++ trailing (codes "%26%26%20") (collect test_of row)
unfolding arkime_loop
arkime_loop_lem [] so_far = sym (append-nil so_far)
arkime_loop_lem ((name, value) ∷ fields) so_far =
    let test = arkime_test (arkime_field name) value in
    ap (arkime_loop fields) (own_lem (is_own name) so_far test)
    ∙ (arkime_loop_lem fields (add_test so_far (test_of (name, value)))
        ∙ add_lem so_far (test_of (name, value)) (collect test_of fields))

-- The expression is the tests of those fields that Arkime knows and that are not null, in their
-- order and with an escaped `&& ` between them.
pub build_arkime_expression_lem :
    (row : Row) → build_arkime_expression row ≡ join_with (codes "%26%26%20") (collect test_of row)
unfolding build_arkime_expression
build_arkime_expression_lem row =
    ap (drop_end 9) (arkime_loop_lem row []) ∙ cut_lem (codes "%26%26%20") (collect test_of row)
