-- ===== src/Alerts/Distinct.antt =====
-- Lists of different texts, as columns are added and removed.
use hellogit.Common.{
  Text, text_eq, text_eq-eq, text_eq_sym, ℕ, zero, suc, ◌≡◌, refl, subst, inl, inr, Bool, true,
  false, not, ◌&&◌, ◌||◌, some, List, [], ◌∷◌, ◌++◌, arith, find_index, remove_at, Bool-cases,
  Option-cases,
}
use hellogit.Alerts.Actions.{member}

abbrev pub distinct : List Text → Bool
distinct [] = true
distinct (t ∷ ts) = not (member t ts) && distinct ts

pub member-snoc :
    (t v : Text) (ts : List Text) → member t (ts ++ v ∷ []) ≡ (member t ts || text_eq t v)
member-snoc t v [] = ground arith
member-snoc t v (u ∷ us) = ground (arith, member-snoc t v us)

pub distinct-snoc :
    (v : Text) (ts : List Text)
    → distinct ts ≡ true
    → member v ts ≡ false
    → distinct (ts ++ v ∷ []) ≡ true
distinct-snoc v [] d m = refl
distinct-snoc v (t ∷ ts) d m =
    ground (arith, member-snoc t v ts, text_eq_sym v t, distinct-snoc v ts)

pub member-remove :
    (t : Text) (i : ℕ) (ts : List Text) → member t ts ≡ false → member t (remove_at i ts) ≡ false
member-remove t i [] h = h
member-remove t zero (u ∷ us) h = ground arith
member-remove t (suc i) (u ∷ us) h = ground (arith, member-remove t i us)

pub distinct-remove :
    (i : ℕ) (ts : List Text) → distinct ts ≡ true → distinct (remove_at i ts) ≡ true
distinct-remove i [] d = d
distinct-remove zero (t ∷ ts) d = ground arith
distinct-remove (suc i) (t ∷ ts) d = ground (arith, member-remove t i ts, distinct-remove i ts)

-- A text that is found is a member.
pub member-find :
    (t : Text) (i : ℕ) (ts : List Text) → find_index (text_eq t) ts ≡ some i → member t ts ≡ true
member-find t i [] h = cc
member-find t i (u ∷ us) h = elim (Bool-cases (text_eq t u)) [
  | inl e ↦ rw e refl
  | inr e ↦ elim (Option-cases (find_index (text_eq t) us)) [
    | inl n ↦ cc (rw (e, n) at h)
    | inr (j, s) ↦ rw e (member-find t j us s)
  ]
]

-- A member is not equal to what is no member.
pub member-differs :
    (t u : Text) (ts : List Text) → member t ts ≡ true → member u ts ≡ false → text_eq t u ≡ false
member-differs t u ts h n = elim (Bool-cases (text_eq t u)) [
  | inl e ↦ cc (subst (λ v. member v ts ≡ true) (text_eq-eq t u e) h, n)
  | inr e ↦ e
]

-- Neither text is a member.
abbrev pub lack : Text → Text → List Text → Bool
lack a c ts = not (member a ts) && not (member c ts)

pub lack-snoc :
    (a c v : Text) (ts : List Text)
    → lack a c ts ≡ true
    → lack a c (v ∷ []) ≡ true
    → lack a c (ts ++ v ∷ []) ≡ true
lack-snoc a c v ts h k = ground (arith, member-snoc a v ts, member-snoc c v ts)

pub lack-remove :
    (a c : Text) (i : ℕ) (ts : List Text) → lack a c ts ≡ true → lack a c (remove_at i ts) ≡ true
lack-remove a c i ts h = ground (arith, member-remove a i ts, member-remove c i ts)

-- A column behind two others, which do not equal it, is found two places later.
pub find-behind :
    (t a c : Text) (i : ℕ) (ts : List Text)
    → lack a c ts ≡ true
    → find_index (text_eq t) ts ≡ some i
    → find_index (text_eq t) (a ∷ c ∷ ts) ≡ some (suc (suc i))
find-behind t a c i ts l f =
    let m = member-find t i ts f in
    let x = member-differs t a ts m (ground arith) in
    let y = member-differs t c ts m (ground arith) in rw (x, y, f) refl

-- One of the options is none of the two.
pub lack-option :
    (a c v : Text) (ts : List Text)
    → lack a c ts ≡ true
    → member v ts ≡ true
    → lack a c (v ∷ []) ≡ true
lack-option a c v ts l m =
    let x = member-differs v a ts m (ground arith) in
    let y = member-differs v c ts m (ground arith) in
    ground (arith, text_eq_sym v a, text_eq_sym v c)
