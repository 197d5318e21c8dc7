-- ===== src/Forms/Password/Runs.antt =====
-- `consecutive` finds exactly the texts with three equal characters in a row.
use hellogit.Common.{
  ℕ, zero, suc, ◌≡◌, refl, sym, ap, ◌∙◌, ◌≢◌, ◌↔◌, Bool, true, false, ◌&&◌, ◌||◌, [], ◌∷◌, ◌++◌,
  arith, ◌==◌, ==_iff, if◌then◌else◌, ltb, replicate, inl, inr, Bool-cases,
}
use hellogit.Forms.Password.{Text, consecutive_from, consecutive}

-- Three equal neighbours somewhere.
abbrev has_triple : Text → Bool
has_triple [] = false
has_triple (a ∷ []) = false
has_triple (a ∷ b ∷ []) = false
has_triple (a ∷ b ∷ c ∷ rest) = (a == b && b == c) || has_triple (b ∷ c ∷ rest)

replicate-cons : (n c : ℕ) (xs : Text) → replicate n c ++ c ∷ xs ≡ c ∷ (replicate n c ++ xs)
replicate-cons zero c xs = refl
replicate-cons (suc n) c xs = ap (λ ys. c ∷ ys) (replicate-cons n c xs)

has_triple-long : (n c : ℕ) (xs : Text) → has_triple (replicate (suc (suc (suc n))) c ++ xs) ≡ true
has_triple-long n c xs = ground arith

-- A character that differs from the one behind it starts no triple, nor do two.
has_triple-differs : (c x : ℕ) (xs : Text) → c ≢ x → has_triple (c ∷ x ∷ xs) ≡ has_triple (x ∷ xs)
has_triple-differs c x [] ne = refl
has_triple-differs c x (y ∷ ys) ne = ground arith

-- A run that ends: two characters or less make no triple, three or more do.
run_ends :
    (c same x : ℕ) (xs : Text)
    → c ≢ x
    → has_triple (replicate (suc same) c ++ x ∷ xs)
      ≡ (if ltb 2 (suc same) then true else has_triple (x ∷ xs))
run_ends c zero x xs ne = has_triple-differs c x xs ne
run_ends c (suc zero) x xs ne = ground (arith, has_triple-differs c x xs)
run_ends c (suc (suc n)) x xs ne = ground arith

-- The loop with a run of `same` characters c behind it.
consecutive_from_lem :
    (c same : ℕ) (xs : Text)
    → consecutive_from c (suc same) xs ≡ has_triple (replicate (suc same) c ++ xs)
unfolding consecutive_from
consecutive_from_lem c zero [] = refl
consecutive_from_lem c (suc zero) [] = refl
consecutive_from_lem c (suc (suc n)) [] = ground arith
consecutive_from_lem c same (x ∷ xs) = elim (Bool-cases (c == x)) [
  | inl e ↦ rw e (
      consecutive_from_lem c (suc same) xs
      ∙ ap (λ ys. has_triple (c ∷ ys))
          (sym (replicate-cons same c xs)
            ∙ ap (λ y. replicate same c ++ y ∷ xs) ((==_iff c x).0 e)))
  | inr e ↦ rw (e, consecutive_from_lem x 0 xs) (sym (run_ends c same x xs (ground arith)))
]

has_triple-append : (pre post : Text) (a : ℕ) → has_triple (pre ++ a ∷ a ∷ a ∷ post) ≡ true
has_triple-append [] post a = ground arith
has_triple-append (x ∷ []) post a = ground arith
has_triple-append (x ∷ y ∷ []) post a = ground arith
has_triple-append (x ∷ y ∷ z ∷ pre) post a = ground (arith, has_triple-append (y ∷ z ∷ pre) post a)

-- Where a triple stands.
abbrev pub Triple : Text → Type 0
Triple xs = (pre : Text) × (a : ℕ) × (post : Text) × (xs ≡ pre ++ a ∷ a ∷ a ∷ post)

has_triple-Triple : (xs : Text) → has_triple xs ≡ true → Triple xs
has_triple-Triple [] h = cc
has_triple-Triple (a ∷ []) h = cc
has_triple-Triple (a ∷ b ∷ []) h = cc
has_triple-Triple (a ∷ b ∷ c ∷ rest) h = elim (Bool-cases (a == b && b == c)) [
  | inl e ↦ ([], a, rest, ground arith)
  | inr e ↦
      let (pre, d, post, q) = has_triple-Triple (b ∷ c ∷ rest) (ground arith) in
      (a ∷ pre, d, post, ap (λ ys. a ∷ ys) q)
]

consecutive_lem : (xs : Text) → consecutive xs ≡ has_triple xs
unfolding consecutive
consecutive_lem [] = refl
consecutive_lem (x ∷ xs) = consecutive_from_lem x 0 xs

-- `consecutive` says yes exactly when some character stands three times in a row, at the end of the
-- text too.
pub consecutive_iff : (xs : Text) → (consecutive xs ≡ true) ↔ Triple xs
consecutive_iff xs = (
  λ h. has_triple-Triple xs (sym (consecutive_lem xs) ∙ h),
  λ t. consecutive_lem xs ∙ rw t.3 (has_triple-append t.0 t.2 t.1),
)
