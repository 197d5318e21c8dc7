-- ===== src/Workflow/Unrepeated.antt =====
-- Nodes no two of which have the same id.
use mathlib.Core.List.{append-nil, append_assoc}
use hellogit.Common.{
  text_eq, ℕ, Bool, false, ◌≡◌, refl, sym, ◌∙◌, ap, subst, List, [], ◌∷◌, ◌++◌, map, All,
}
use hellogit.Workflow.Types.{Status, Node}
use hellogit.Workflow.Processes.{put_by_id, by_id, with_status}

abbrev pub same_id : Node → Node → Bool
same_id m n = text_eq m.node_id n.node_id

abbrev pub AreUnrepeated : List Node → Type 0
AreUnrepeated [] = Unit
AreUnrepeated (n ∷ ns) = All (λ m. same_id n m ≡ false) ns × AreUnrepeated ns

module _ (o : ℕ → Node) where
  abbrev pub Apart : ℕ → List ℕ → Type 0
  Apart r rs = All (λ s. same_id (o r) (o s) ≡ false) rs

  abbrev pub Unrepeated : List ℕ → Type 0
  Unrepeated [] = Unit
  Unrepeated (r ∷ rs) = Apart r rs × Unrepeated rs

  pub Unrepeated-map : (rs : List ℕ) → AreUnrepeated (map o rs) → Unrepeated rs
  Unrepeated-map [] h = tt
  Unrepeated-map (r ∷ rs) (a, h) = (apart rs a, Unrepeated-map rs h)
    where
      apart : (ss : List ℕ) → All (λ m. same_id (o r) m ≡ false) (map o ss) → Apart r ss
      apart [] h = tt
      apart (s ∷ ss) (e, h) = (e, apart ss h)

  Apart-front : (r : ℕ) (rs ss : List ℕ) → Apart r (rs ++ ss) → Apart r rs
  Apart-front r [] ss h = tt
  Apart-front r (s ∷ rs) ss (e, h) = (e, Apart-front r rs ss h)

  Apart-without :
      (r : ℕ) (rs : List ℕ) (x : ℕ) (ss : List ℕ) → Apart r (rs ++ x ∷ ss) → Apart r (rs ++ ss)
  Apart-without r [] x ss (e, h) = h
  Apart-without r (s ∷ rs) x ss (e, h) = (e, Apart-without r rs x ss h)

  -- Without the one in the middle, and without those behind.
  pub Unrepeated-without :
      (rs : List ℕ) (x : ℕ) (ss : List ℕ) → Unrepeated (rs ++ x ∷ ss) → Unrepeated (rs ++ ss)
  Unrepeated-without [] x ss (a, h) = h
  Unrepeated-without (r ∷ rs) x ss (a, h) =
      (Apart-without r rs x ss a, Unrepeated-without rs x ss h)

  pub Unrepeated-front : (rs ss : List ℕ) → Unrepeated (rs ++ ss) → Unrepeated rs
  Unrepeated-front [] ss h = tt
  Unrepeated-front (r ∷ rs) ss (a, h) = (Apart-front r rs ss a, Unrepeated-front rs ss h)

  put_by_id_lem :
      (x : ℕ) (rs ss : List ℕ) → Unrepeated (rs ++ x ∷ ss) → put_by_id o x rs ≡ rs ++ x ∷ []
  unfolding put_by_id
  put_by_id_lem x [] ss h = refl
  put_by_id_lem x (r ∷ rs) ss (a, h) = rw (at_x r rs a) (ap (◌∷◌ r) (put_by_id_lem x rs ss h))
    where
      at_x : (r : ℕ) (rs : List ℕ) → Apart r (rs ++ x ∷ ss) → same_id (o r) (o x) ≡ false
      at_x r [] (e, h) = e
      at_x r (s ∷ rs) (e, h) = at_x r rs h

  by_id_loop : (so_far xs : List ℕ) → Unrepeated (so_far ++ xs) → by_id o so_far xs ≡ so_far ++ xs
  unfolding by_id
  by_id_loop so_far [] h = sym (append-nil so_far)
  by_id_loop so_far (x ∷ xs) h =
      let put = put_by_id_lem x so_far xs h in
      let assoc = append_assoc so_far (x ∷ []) xs in
      rw put (by_id_loop (so_far ++ x ∷ []) xs (subst Unrepeated (sym assoc) h) ∙ assoc)

  -- The map by id leaves such nodes as they are.
  pub by_id_lem : (xs : List ℕ) → Unrepeated xs → by_id o [] xs ≡ xs
  by_id_lem xs h = by_id_loop [] xs h

-- A status does not change an id.
pub AreUnrepeated-status :
    (ss : List Status) (ns : List Node) → AreUnrepeated ns → AreUnrepeated (map (with_status ss) ns)
AreUnrepeated-status ss [] h = tt
AreUnrepeated-status ss (n ∷ ns) (a, h) = (apart ns a, AreUnrepeated-status ss ns h)
  where
    apart :
        (ms : List Node)
        → All (λ m. same_id n m ≡ false) ms
        → All (λ m. same_id (with_status ss n) m ≡ false) (map (with_status ss) ms)
    apart [] h = tt
    apart (m ∷ ms) (e, h) = (e, apart ms h)
