-- ===== src/Agents/Removal.antt =====
-- A host that is removed from the table of a list.
use hellogit.Common.{
  ℕ, zero, suc, ◌+◌, ◌*◌, ◌≤◌, ◌<◌, ◌≡◌, refl, ◌∙◌, ap, String, some, List, [], ◌∷◌, get_elem?,
  remove_at, update_self, arith,
}
use hellogit.Rest.{ok}
use hellogit.Agents.Types.{Page, Row}
use hellogit.Agents.Replies.{replied_agent_remove_host}

get_elem?-remove_at {ℓ} :
    {A : Type ℓ} (xs : List A) (i j : ℕ)
    → i ≤ j
    → get_elem? (remove_at i xs) j ≡ get_elem? xs (suc j)
get_elem?-remove_at [] i j h = refl
get_elem?-remove_at (x ∷ xs) zero j h = refl
get_elem?-remove_at (x ∷ xs) (suc i) zero h = absurd (omega arith)
get_elem?-remove_at (x ∷ xs) (suc i) (suc j) h = get_elem?-remove_at xs i j (omega arith)

-- A host at the row of this index on a page after the first one, of so many rows a page, is
-- removed: it stays in the table, one place before.
pub later_page-stays :
    (size k i j h : ℕ) (message : String) (l r : ℕ) (p : Page)
    → i < size
    → suc j ≡ size + k * size + i
    → get_elem? (p.rows r).host_list (suc j) ≡ some h
    → get_elem? ((replied_agent_remove_host (ok message) l r i p).0.rows r).host_list j ≡ some h
unfolding replied_agent_remove_host
later_page-stays size k i j h message l r p small place shown =
    ap (λ (row : Row). get_elem? row.host_list j) (update_self p.rows r _)
    ∙ get_elem?-remove_at (p.rows r).host_list i j (omega arith)
    ∙ shown
