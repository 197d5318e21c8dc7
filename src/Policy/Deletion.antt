-- ===== src/Policy/Deletion.antt =====
-- Deleting rules: what `delete_rule_closed` and the answer to its request do to the rules table.
use mathlib.Core.List.{Mem, Nodup, Nodup-cons, Mem-prop, mem-cons, not-mem-nil}
use mathlib.Core.Logic.Or
use hellogit.Common.{
  ℕ, zero, suc, ◌<◌, ◌≡◌, refl, sym, ap, subst, ◌∙◌, ◌≢◌, String, Bool, true, not, Option, none,
  some, List, [], ◌∷◌, map, arith, inl, inr, Bool-cases, Option-cases, find_index, splice_one,
  remove_at, keep, any, ◌==◌, ==_iff, update_self,
}
use hellogit.Policy.Types.{Rule, Page, ok, request, delete_rule}
use hellogit.Policy.Actions.{delete_rule_closed, get_rule_index}
use hellogit.Policy.Replies.{replied_delete_rule}

abbrev pub has_id : ℕ → Rule → Bool
has_id n x = x.id == n

abbrev pub ids : List Rule → List ℕ
ids xs = map (λ (x : Rule). x.id) xs

pub Mem-tail : (n m : ℕ) (ns : List ℕ) → Mem n (m ∷ ns) → n ≢ m → Mem n ns
Mem-tail n m ns h ne = Or.elim Mem-prop (mem-cons.0 h) (λ e. absurd (ne e)) (λ t. t)

find_index-none : (n : ℕ) (xs : List Rule) → find_index (has_id n) xs ≡ none → ¬ Mem n (ids xs)
find_index-none n [] h m = not-mem-nil m
find_index-none n (x ∷ xs) h m = elim (Bool-cases (has_id n x)) [
  | inl e ↦ cc (rw e at h)
  | inr e ↦ find_index-none n xs (ground arith) (Mem-tail n x.id (ids xs) m (ground arith))
]

keep-absent : (n : ℕ) (xs : List Rule) → ¬ Mem n (ids xs) → keep (λ x. not (has_id n x)) xs ≡ xs
keep-absent n [] h = refl
keep-absent n (x ∷ xs) h = elim (Bool-cases (has_id n x)) [
  | inl e ↦ absurd (h (mem-cons.1 (Or.inl (sym ((==_iff _ _).0 e)))))
  | inr e ↦ rw e (ap (λ ys. x ∷ ys) (keep-absent n xs (λ m. h (mem-cons.1 (Or.inr m)))))
]

-- Splicing at the place found removes the one rule with that id.
splice-find :
    (n : ℕ) (xs : List Rule)
    → Nodup (ids xs)
    → Mem n (ids xs)
    → splice_one (find_index (has_id n) xs) xs ≡ keep (λ x. not (has_id n x)) xs
splice-find n [] d m = absurd (not-mem-nil m)
splice-find n (x ∷ xs) d m = elim (Bool-cases (has_id n x)) [
  | inl e ↦
      rw e (
        sym
          (keep-absent n xs (subst (λ k. ¬ Mem k (ids xs)) ((==_iff _ _).0 e) (Nodup-cons.0 d).0)))
  | inr e ↦
      let m' : Mem n (ids xs) = Mem-tail n x.id (ids xs) m (ground arith) in
      elim (Option-cases (find_index (has_id n) xs)) [
        | inl f ↦ absurd (find_index-none n xs f m')
        | inr (i, f) ↦
            rw (e, f) (ap (λ ys. x ∷ ys) (rw f at (splice-find n xs (Nodup-cons.0 d).1 m')))
      ]
]

-- Removing behind a rule leaves it in place.
any-remove_behind :
    (p : Rule → Bool) (xs : List Rule) (j k : ℕ)
    → find_index p xs ≡ some j
    → j < k
    → any p (remove_at k xs) ≡ true
any-remove_behind p [] j k h lt = cc
any-remove_behind p (x ∷ xs) j zero h lt = absurd (omega arith)
any-remove_behind p (x ∷ xs) zero (suc k) h lt = ground arith
any-remove_behind p (x ∷ xs) (suc j) (suc k) h lt = ground (arith, any-remove_behind p xs j k)

-- So does removing at its old place, once a rule before it is gone.
any-remove_shifted :
    (p : Rule → Bool) (xs : List Rule) (i j : ℕ)
    → find_index p xs ≡ some j
    → i < j
    → any p (remove_at j (remove_at i xs)) ≡ true
any-remove_shifted p [] i j h lt = cc
any-remove_shifted p (x ∷ xs) i zero h lt = absurd (omega arith)
any-remove_shifted p (x ∷ xs) zero (suc j) h lt = ground (arith, any-remove_behind p xs j (suc j))
any-remove_shifted p (x ∷ xs) (suc i) (suc j) h lt = ground (arith, any-remove_shifted p xs i j)

-- The table's array after a deletion, and any other.
module _ (i : Option ℕ) (message : String) (p : Page) where
  abbrev pub deleted : Page
  deleted = (replied_delete_rule i (ok (some message)) p).0

  deleted-table : deleted.arrays deleted.rules ≡ splice_one i (p.arrays p.rules)
  unfolding replied_delete_rule
  deleted-table = rw update_self

  deleted-arrays : (a : ℕ) → a < p.next → deleted.arrays a ≡ p.arrays a
  unfolding replied_delete_rule
  deleted-arrays a h = ground arith

  deleted-objects : (r : ℕ) → deleted.objects r ≡ p.objects r
  unfolding replied_delete_rule
  deleted-objects r = refl

-- The index that is sent along is the one in the rule set's own rules.
delete_rule_closed-request :
    (rule : Rule) (rule_set a : ℕ) (p : Page)
    → (p.objects rule_set).rules ≡ some a
    → delete_rule_closed rule rule_set true p
      ≡ (p, request (delete_rule rule (find_index (has_id rule.id) (p.arrays a))) ∷ [])
unfolding delete_rule_closed
delete_rule_closed-request rule rule_set a p h = rw (h, delete_rule_closed)

-- A page on which the rules table shows the rules of a rule set, the two being one array.
module _ (p : Page) (rule_set : ℕ) (shared : (p.objects rule_set).rules ≡ some p.rules) where
  -- If the rules have different ids, deleting one of them asks for the deletion at its place in the
  -- table, and on success the table is what it was without that rule.
  pub delete-shared :
      (rule : Rule) (message : String)
      → Nodup (ids (p.arrays p.rules))
      → Mem rule.id (ids (p.arrays p.rules))
      → (delete_rule_closed rule rule_set true p
          ≡ (p, request (delete_rule rule (get_rule_index rule.id p)) ∷ []))
        × ((deleted (get_rule_index rule.id p) message p).arrays
              (deleted (get_rule_index rule.id p) message p).rules
            ≡ keep (λ x. not (has_id rule.id x)) (p.arrays p.rules))
  delete-shared rule message d m = (
    delete_rule_closed-request rule rule_set p.rules p shared,
    deleted-table (get_rule_index rule.id p) message p ∙ splice-find rule.id _ d m,
  )

  -- But the rule set keeps the array from before, so the place of a rule behind the deleted one is
  -- off by one from then on: the page asks for its deletion at the old place, and after the answer
  -- the table still shows the rule.
  pub delete-stale :
      (first second : Rule) (i j : ℕ) (message message' : String)
      → p.rules < p.next
      → get_rule_index first.id p ≡ some i
      → get_rule_index second.id p ≡ some j
      → i < j
      → (delete_rule_closed second rule_set true (deleted (some i) message p)
          ≡ (deleted (some i) message p, request (delete_rule second (some j)) ∷ []))
        × (any (has_id second.id) (
              (deleted (some j) message' (deleted (some i) message p)).arrays
                (deleted (some j) message' (deleted (some i) message p)).rules)
            ≡ true)
  delete-stale first second i j message message' used hi hj lt =
      let q = deleted (some i) message p in
      let asked =
        delete_rule_closed-request second rule_set p.rules q
          (rw (deleted-objects (some i) message p rule_set) shared) in
      (
        rw (deleted-arrays (some i) message p p.rules used, hj) at asked,
        rw (deleted-table (some j) message' q, deleted-table (some i) message p)
            (any-remove_shifted (has_id second.id) _ i j hj lt),
      )
