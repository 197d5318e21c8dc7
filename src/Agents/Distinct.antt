-- ===== src/Agents/Distinct.antt =====
-- The hosts of a list after hosts were added.
use mathlib.Core.Option
use mathlib.Core.List.{append_assoc}
use hellogit.Common.{
  Text, text_eq, text_eq-eq, text_eq_refl, ℕ, suc, Bool, Bool-cases, Option-cases, inl, inr, true,
  false, not, ◌||◌, ◌≡◌, refl, sym, ◌∙◌, ap, subst, fun_ext, Option, none, some, List, [], ◌∷◌,
  ◌++◌, map, keep, any, take, length, length-append, find_index, if◌then◌else◌, arith, allocate,
  fresh, update_self,
}
use hellogit.Rest.{ok}
use hellogit.Agents.Types.{Host, Page}
use hellogit.Agents.Replies.{added_hosts, replied_agent_add_host}
use hellogit.Agents.Hosts.{same_lower, same_name, is_at, is_host_index_zero, filter_first, distinct}

-- The name of a host with its case taken away, if it has one.
abbrev pub lowered : (Text → Text) → Option Text → Option Text
lowered lower none = none
lowered lower (some s) = some (lower s)

abbrev pub key : (Text → Text) → Host → Option Text
key lower h = lowered lower h.hostname

abbrev is_key' : Text → Option Text → Bool
is_key' s none = false
is_key' s (some t) = text_eq s t

abbrev pub is_key : Text → Option Text → Bool
is_key t none = false
is_key t (some s) = text_eq s t

-- Whether a host has this name, whatever the case.
abbrev pub is_named : (Text → Text) → Text → Host → Bool
is_named lower t h = is_key t (key lower h)

same_lower-key :
    (lower : Text → Text) (t : Text) (a b : Option Text)
    → lowered lower b ≡ some t
    → same_lower lower a b ≡ is_key t (lowered lower a)
same_lower-key lower t a none e = cc
same_lower-key lower t none (some u) e = refl
same_lower-key lower t (some s) (some u) e = ap (is_key' (lower s)) e

unnamed :
    (lower : Text → Text) (a b : Option Text)
    → lowered lower b ≡ none
    → same_lower lower a b ≡ false
unnamed lower none b e = refl
unnamed lower (some s) none e = refl
unnamed lower (some s) (some t) e = cc

is_at-suc : (o : Option ℕ) (n : ℕ) → is_at (Option.map suc o) (suc n) ≡ is_at o n
is_at-suc none n = refl
is_at-suc (some j) n = ground arith

find_index-never : (xs : List Host) → find_index (λ _. false) xs ≡ none
find_index-never [] = refl
find_index-never (x ∷ xs) = ap (Option.map suc) (find_index-never xs)

find-prefix :
    (P : Host → Bool) (pre : List Host) (x : Host) (ys : List Host)
    → P x ≡ true
    → is_at (find_index P (pre ++ x ∷ ys)) (length pre) ≡ not (any P pre)
find-prefix P [] x ys e = rw e refl
find-prefix P (y ∷ pre) x ys e = elim (Bool-cases (P y)) [
  | inl e' ↦ rw e' (ground arith)
  | inr e' ↦
      rw e' (is_at-suc (find_index P (pre ++ x ∷ ys)) (length pre) ∙ find-prefix P pre x ys e)
]

any-snoc : (P : Host → Bool) (pre : List Host) (x : Host) → any P (pre ++ x ∷ []) ≡ any P pre || P x
any-snoc P [] x = ground arith
any-snoc P (y ∷ pre) x = ground (arith, any-snoc P pre x)

module _ (lower : Text → Text) (o : ℕ → Host) (t : Text) where
  -- What `is_host_index_zero` says of a host that has this name, behind others.
  zero-named :
      (pre : List Host) (x : Host) (ys : List Host) (s : Text)
      → key lower x ≡ some s
      → is_host_index_zero lower x (length pre) (pre ++ x ∷ ys) ≡ not (any (is_named lower s) pre)
  unfolding is_host_index_zero
  zero-named pre x ys s e =
      let named : (λ h. same_name lower h x) ≡ is_named lower s =
        fun_ext (λ h. same_lower-key lower s h.hostname x.hostname e) in
      rw named (find-prefix (is_named lower s) pre x ys (ap (is_key s) e ∙ text_eq_refl s))

  zero-unnamed :
      (hosts : List Host) (x : Host) (i : ℕ)
      → key lower x ≡ none
      → is_host_index_zero lower x i hosts ≡ false
  unfolding is_host_index_zero
  zero-unnamed hosts x i e =
      let never : (λ h. same_name lower h x) ≡ (λ h. false) =
        fun_ext (λ h. unnamed lower h.hostname x.hostname e) in
      rw (never, find_index-never hosts) refl

  -- A host with the name decides by whether one stands before it.
  zero_lem :
      (pre : List Host) (x : Host) (ys : List Host)
      → is_named lower t x ≡ true
      → is_host_index_zero lower x (length pre) (pre ++ x ∷ ys) ≡ not (any (is_named lower t) pre)
  zero_lem pre x ys h = elim (Option-cases (key lower x)) [
    | inl e ↦ cc (ap (is_key t) e)
    | inr (s, e) ↦
        let same_text : s ≡ t = text_eq-eq s t (sym (ap (is_key t) e) ∙ h) in
        subst
          (λ u.
            is_host_index_zero lower x (length pre) (pre ++ x ∷ ys)
            ≡ not (any (is_named lower u) pre))
          same_text (zero-named pre x ys s e)
  ]

  step :
      (r : ℕ) (rest : List ℕ) (ks : List Host) (b z : Bool)
      → keep (is_named lower t) (map o rest)
        ≡ (if b || is_named lower t (o r) then [] else take 1 (keep (is_named lower t) ks))
      → (is_named lower t (o r) ≡ true → z ≡ not b)
      → keep (is_named lower t) (map o (if z then r ∷ rest else rest))
        ≡ (if b then [] else take 1 (keep (is_named lower t) (o r ∷ ks)))
  step r rest ks true true ih h = elim (Bool-cases (is_named lower t (o r))) [
    | inl e ↦ cc (h e)
    | inr e ↦ rw e ih
  ]
  step r rest ks true false ih h = ih
  step r rest ks false true ih h = elim (Bool-cases (is_named lower t (o r))) [
    | inl e ↦
        rw e
          (ap (◌∷◌ (o r)) (ih ∙ ap (λ b. if b then [] else take 1 (keep (is_named lower t) ks)) e))
    | inr e ↦ rw e (ih ∙ ap (λ b. if b then [] else take 1 (keep (is_named lower t) ks)) e)
  ]
  step r rest ks false false ih h = elim (Bool-cases (is_named lower t (o r))) [
    | inl e ↦ cc (h e)
    | inr e ↦ rw e (ih ∙ ap (λ b. if b then [] else take 1 (keep (is_named lower t) ks)) e)
  ]

  filter_first_lem :
      (rs : List ℕ) (pre hosts : List Host) (i : ℕ)
      → hosts ≡ pre ++ map o rs
      → i ≡ length pre
      → keep (is_named lower t) (map o (filter_first lower o hosts i rs))
        ≡ (if any (is_named lower t) pre then [] else take 1 (keep (is_named lower t) (map o rs)))
  unfolding filter_first
  filter_first_lem [] pre hosts i e e' = ground arith
  filter_first_lem (r ∷ rs) pre hosts i e e' =
      let x = o r in
      let N = is_named lower t in
      let snoc : suc i ≡ length (pre ++ x ∷ []) = omega (arith, e', length-append pre (x ∷ [])) in
      let assoc : hosts ≡ (pre ++ x ∷ []) ++ map o rs =
        e ∙ sym (append_assoc pre (x ∷ []) (map o rs)) in
      let ih = filter_first_lem rs (pre ++ x ∷ []) hosts (suc i) assoc snoc in
      step r (filter_first lower o hosts (suc i) rs) (map o rs) (any N pre)
        (is_host_index_zero lower x i hosts)
        (ih ∙ ap (λ b. if b then [] else take 1 (keep N (map o rs))) (any-snoc N pre x))
        (λ h. rw (e, e') (zero_lem pre x (map o rs) h))

-- When hosts come that were added to a list which has hosts, then for each name, whatever the case
-- of its letters, the list has the first host of that name among those it had and those that came,
-- and no other of that name; and the table of the list shows its hosts.
pub replied_agent_add_host_lem :
    (lower : Text → Text) (t : Text) (response : List Host) (l r : ℕ) (ts : List ℕ) (p : Page)
    → (p.lists l).targets ≡ some ts
    → let q = (replied_agent_add_host lower (ok response) l r p).0 in
      let all = map (allocate p.hosts p.next response) (ts ++ fresh p.next response) in
      ((q.lists l).targets ≡ some (q.rows r).host_list)
      × (keep (is_named lower t) (map q.hosts (q.rows r).host_list)
          ≡ take 1 (keep (is_named lower t) all))
unfolding replied_agent_add_host distinct
replied_agent_add_host_lem lower t response l r ts p e =
    let o = allocate p.hosts p.next response in
    let all = ts ++ fresh p.next response in
    let hosts : List ℕ = added_hosts lower o (p.lists l).targets (fresh p.next response) in
    let row = update_self p.rows r (record (p.rows r) { host_list = hosts }) in
    let list = update_self p.lists l (record (p.lists l) { targets = some hosts }) in
    (rw (row, list) refl, rw (row, e) (filter_first_lem lower o t all [] (map o all) 0 refl refl))
