-- ===== src/AddNode/Digits.antt =====
-- The texts of numbers in add-node-dialog.component.ts.
use hellogit.Common.{
  Text, ℕ, zero, suc, ◌+◌, ◌*◌, ◌-◌, ◌/◌, ◌%◌, ◌<◌, ltb, true, false, ◌&&◌, some, [], ◌∷◌, ◌++◌,
  ◌≡◌, refl, ap, ◌∙◌, inl, inr, arith, Bool-cases, every, Bool,
}
use hellogit.Subnet.{number_from}
use hellogit.AddNode.Addresses.{digits_of, to_string, is_digit, leading_digits, int_of, parse_int}

and-cases : (a b : Bool) → (a && b) ≡ true → (a ≡ true) × (b ≡ true)
and-cases true b h = (refl, h)
and-cases false b h = cc

number_from-snoc :
    (so_far : ℕ) (t : Text) (r : ℕ)
    → number_from so_far (t ++ (48 + r) ∷ []) ≡ number_from so_far t * 10 + r
number_from-snoc so_far [] r = omega arith
number_from-snoc so_far (c ∷ cs) r = number_from-snoc (so_far * 10 + (c - 48)) cs r

number_from-digits_of : (fuel n : ℕ) → n < fuel → number_from 0 (digits_of fuel n) ≡ n
unfolding digits_of
number_from-digits_of zero n h = absurd (omega (arith, h))
number_from-digits_of (suc fuel) n h = elim (Bool-cases (ltb n 10)) [
  | inl e ↦ rw e (omega arith)
  | inr e ↦
      let big : 9 < n = ground (arith, e) in
      let ih = number_from-digits_of fuel (n / 10) (omega (arith, h, big)) in
      rw e (number_from-snoc 0 (digits_of fuel (n / 10)) (n % 10) ∙ omega (arith, ih))
]

every-snoc : (t : Text) (c : ℕ) → every is_digit (t ++ c ∷ []) ≡ (every is_digit t && is_digit c)
every-snoc [] c = ground arith
every-snoc (d ∷ ds) c = ground (arith, every-snoc ds c)

leading_digits-all : (t : Text) → every is_digit t ≡ true → leading_digits t ≡ t
unfolding leading_digits
leading_digits-all [] h = refl
leading_digits-all (c ∷ cs) h =
    let both = and-cases (is_digit c) _ h in rw both.0 (ap (c ∷◌) (leading_digits-all cs both.1))

digit : (r : ℕ) → r < 10 → is_digit (48 + r) ≡ true
digit r h = ground (arith, h)

every-digits_of : (fuel n : ℕ) → every is_digit (digits_of fuel n) ≡ true
unfolding digits_of
every-digits_of zero n = refl
every-digits_of (suc fuel) n = elim (Bool-cases (ltb n 10)) [
  | inl e ↦ let d = digit n (ground (arith, e)) in rw (e, d) refl
  | inr e ↦
      let d = digit (n % 10) (omega arith) in
      let ih = every-digits_of fuel (n / 10) in
      rw (e, every-snoc (digits_of fuel (n / 10)) (48 + n % 10), ih, d) refl
]

int_of-snoc : (t : Text) (c : ℕ) → int_of (t ++ c ∷ []) ≡ some (number_from 0 (t ++ c ∷ []))
int_of-snoc [] c = refl
int_of-snoc (d ∷ ds) c = refl

int_of-digits_of :
    (fuel n : ℕ) → int_of (digits_of (suc fuel) n) ≡ some (number_from 0 (digits_of (suc fuel) n))
unfolding digits_of
int_of-digits_of fuel n = elim (Bool-cases (ltb n 10)) [
  | inl e ↦ rw e refl
  | inr e ↦ rw e (int_of-snoc (digits_of fuel (n / 10)) (48 + n % 10))
]

-- The text of a number is read as the number.
parse_int-to_string : (n : ℕ) → parse_int (to_string n) ≡ some n
unfolding parse_int to_string
parse_int-to_string n =
    ap int_of (leading_digits-all (digits_of (suc n) n) (every-digits_of (suc n) n))
    ∙ (int_of-digits_of n n ∙ ap some (number_from-digits_of (suc n) n (omega arith)))
