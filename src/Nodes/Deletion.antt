-- ===== src/Nodes/Deletion.antt =====
-- The dialog that asks before a node is deleted.
use hellogit.Common.{
  Text, codes, join_with, ltb, ℕ, suc, arith, true, ◌≡◌, refl, ap, List, [], ◌∷◌, ◌++◌, map, length,
  replicate,
}
use hellogit.Rest.{ok}
use hellogit.Nodes.Types.{Page, confirm_delete}
use hellogit.Nodes.Handlers.{
  app, text, application, joined, open_delete_node_dialog_window, replied_get_catalog_apps,
}

-- The names are mapped to their property `application`, and are texts by then.
texts_are_blank :
    (apps : List Text)
    → map (λ a. joined (application a)) (map (λ a. text (joined (application a))) (map app apps))
      ≡ replicate (length apps) []
unfolding application
texts_are_blank [] = refl
texts_are_blank (a ∷ apps) = ap (◌∷◌ []) (texts_are_blank apps)

positive : (n : ℕ) → ltb 0 (suc n) ≡ true
positive n = ground arith

-- When the applications that are installed on a node come, the dialog's message says how many
-- there are by commas, and names none of them.
pub replied_get_catalog_apps_lem :
    (a : Text) (apps : List Text) (r : ℕ) (p : Page)
    → let name = (p.objects r).hostname in
      replied_get_catalog_apps (ok (a ∷ apps)) r p ≡ (
        p,
        confirm_delete r (codes "Delete " ++ name ++ codes "?") (
              (codes "Are you sure you want delete " ++ name ++ codes "?")
              ++ codes "\n\n       The following applications will be uninstalled: \n "
              ++ join_with (codes ", ") (replicate (length (a ∷ apps)) []))
            ∷ [],
      )
unfolding replied_get_catalog_apps open_delete_node_dialog_window application
replied_get_catalog_apps_lem a apps r p =
    let installed = map (λ x. text (joined (application x))) (map app apps) in
    rw (positive (length (map app apps)), positive (length installed), texts_are_blank apps) refl
