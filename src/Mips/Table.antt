-- ===== src/Mips/Table.antt =====
-- The table of MIPs.
use hellogit.Common.{
  ℕ, suc, String, Bool-cases, inl, inr, ◌<◌, ◌≡◌, refl, ap, ◌∙◌, true, List, [], ◌∷◌, map, keep,
  arith, update, update_self,
}
use hellogit.Rest.{Reply, IsError, refused, unanswered}
use hellogit.Mips.{
  Node, Page, marked, is_mip, mips_loop, update_mips_data, delete_confirmed, replied_delete_node,
}

-- The objects that are there stay, and the new ones are those of the response.
loop_keeps :
    (ns : List Node) (p : Page) (r : ℕ) → r < p.next → (mips_loop ns p).0.objects r ≡ p.objects r
unfolding mips_loop
loop_keeps [] p r h = refl
loop_keeps (n ∷ ns) p r h = ground (
  arith,
  loop_keeps ns (record p { objects = update p.objects p.next (marked n); next = suc p.next }) r,
)

loop_lem :
    (ns : List Node) (p : Page)
    → let (q, rs) = mips_loop ns p in map q.objects rs ≡ map marked (keep is_mip ns)
unfolding mips_loop
loop_lem [] p = refl
loop_lem (n ∷ ns) p =
    let p' = record p { objects = update p.objects p.next (marked n); next = suc p.next } in
    let new : (mips_loop ns p').0.objects p.next ≡ marked n =
      loop_keeps ns p' p.next (omega arith) ∙ update_self p.objects p.next (marked n) in
    elim (Bool-cases (is_mip n)) [
      | inl e ↦ rw e (rw new (ap (λ l. marked n ∷ l) (loop_lem ns p')))
      | inr e ↦ rw e (loop_lem ns p')
    ]

-- When nodes come, from the server or over the websocket, the table shows those that are MIPs, in
-- their order, and each marked by its last job to deploy.
pub update_mips_data_lem :
    (nodes : List Node) (p : Page)
    → let q = update_mips_data nodes p in map q.objects q.mips ≡ map marked (keep is_mip nodes)
unfolding update_mips_data
update_mips_data_lem nodes p = loop_lem nodes p

-- A MIP is to be deleted, and the server refuses: its row says that it is being removed.
pub refused-is_removing :
    (r : ℕ) (reply : Reply String) (p : Page)
    → IsError reply
    → ((replied_delete_node reply (delete_confirmed true r p).0).0.objects r).is_removing ≡ true
unfolding replied_delete_node delete_confirmed
refused-is_removing r _ p (refused m) = ap (λ (n : Node). n.is_removing) (update_self p.objects r _)
refused-is_removing r _ p unanswered = ap (λ (n : Node). n.is_removing) (update_self p.objects r _)
