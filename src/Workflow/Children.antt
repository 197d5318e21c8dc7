-- ===== src/Workflow/Children.antt =====
-- The processes after the nodes have come.
use mathlib.Core.List.{append-nil, append_assoc}
use mathlib.Core.Option
use hellogit.Common.{
  Option, none, some, Text, codes, text_eq, text_eq-eq, ℕ, Bool, Bool-cases, inl, inr, true, false,
  not, ◌&&◌, ◌||◌, ◌≡◌, refl, sym, ◌∙◌, ap, subst, List, [], ◌∷◌, ◌++◌, map, keep, any,
  if◌then◌else◌, arith, allocate, fresh, map-allocate, map-keep, any-map,
}
use hellogit.Common.Sort.{sort}
use hellogit.Workflow.Types.{Status, Node, Chart, Process, ProcessForm, Page}
use hellogit.Workflow.Processes.{
  fits, child_status, is_offered, push_child, set_children, children_loop, has_children,
  with_status, enable_process, set_process_list_children,
}
use hellogit.Workflow.Unrepeated.{
  AreUnrepeated, AreUnrepeated-status, Unrepeated, Unrepeated-map, Unrepeated-without,
  Unrepeated-front, by_id_lem,
}

-- A node that the chart is for is installed unless it is deployed, and installed again or uninstalled
-- unless its status is unknown.
abbrev pub can_install : Chart → Node → Bool
can_install c n = fits c n && not (text_eq (child_status n) (codes "DEPLOYED"))

abbrev pub can_uninstall : Chart → Node → Bool
can_uninstall c n = fits c n && not (text_eq (child_status n) (codes "UNKNOWN"))

abbrev pub processes_of : List ℕ → List ℕ → List ℕ → List Process
processes_of installs reinstalls uninstalls =
    record { process = codes "install"; children = installs }
    ∷ record { process = codes "reinstall"; children = reinstalls }
    ∷ record { process = codes "uninstall"; children = uninstalls }
    ∷ []

offered-install :
    (status : Text) (children : List ℕ)
    → is_offered status (record { process = codes "install"; children = children })
      ≡ not (text_eq status (codes "DEPLOYED"))
unfolding is_offered
offered-install status children = ground arith

-- A text is not both.
deployed-unknown :
    (status : Text)
    → text_eq status (codes "DEPLOYED") ≡ true
    → text_eq status (codes "UNKNOWN") ≡ false
deployed-unknown status h =
    subst (λ t. text_eq t (codes "UNKNOWN") ≡ false) (sym (text_eq-eq status (codes "DEPLOYED") h))
      refl

offered-reinstall :
    (status : Text) (children : List ℕ)
    → is_offered status (record { process = codes "reinstall"; children = children })
      ≡ not (text_eq status (codes "UNKNOWN"))
unfolding is_offered
offered-reinstall status children = ground (arith, deployed-unknown status)

offered-uninstall :
    (status : Text) (children : List ℕ)
    → is_offered status (record { process = codes "uninstall"; children = children })
      ≡ not (text_eq status (codes "UNKNOWN"))
unfolding is_offered
offered-uninstall status children = ground (arith, deployed-unknown status)

three {ℓ} :
    {A : Type ℓ} {a a' b b' d d' : A}
    → a ≡ a'
    → b ≡ b'
    → d ≡ d'
    → ◌≡◌ {A = List A} (a ∷ b ∷ d ∷ []) (a' ∷ b' ∷ d' ∷ [])
three p q r = λ i. p i ∷ q i ∷ r i ∷ []

or_swap : (a b d : Bool) → a || (b || d) ≡ (b || a) || d
or_swap a b d = ground arith

module _ (c : Chart) (o : ℕ → Node) where
  -- A node is pushed, or it is not, to children none of which has its id.
  one :
      (offered : Bool) (name : Text) (r : ℕ) (children rs : List ℕ)
      → Unrepeated o (children ++ r ∷ rs)
      → (if offered
          then push_child o r (record { process = name; children = children })
          else record { process = name; children = children })
        ≡ record { process = name; children = if offered then children ++ r ∷ [] else children }
  unfolding push_child
  one true name r children rs h =
      let assoc = append_assoc children (r ∷ []) rs in
      let front = Unrepeated-front o (children ++ r ∷ []) rs (subst (Unrepeated o) (sym assoc) h) in
      ap (λ cs. record { process = name; children = cs }) (by_id_lem o (children ++ r ∷ []) front)
  one false name r children rs h = refl

  set_children_lem :
      (r : ℕ) (i ri u rs : List ℕ)
      → Unrepeated o (i ++ r ∷ rs)
      → Unrepeated o (ri ++ r ∷ rs)
      → Unrepeated o (u ++ r ∷ rs)
      → let deployed = text_eq (child_status (o r)) (codes "DEPLOYED") in
        let unknown = text_eq (child_status (o r)) (codes "UNKNOWN") in
        set_children o (child_status (o r)) r (processes_of i ri u)
        ≡ processes_of
            (if not deployed then i ++ r ∷ [] else i)
            (if not unknown then ri ++ r ∷ [] else ri)
            (if not unknown then u ++ r ∷ [] else u)
  unfolding set_children
  set_children_lem r i ri u rs h h' h'' =
      let status = child_status (o r) in
      three
        (rw (offered-install status i)
          (one (not (text_eq status (codes "DEPLOYED"))) (codes "install") r i rs h))
        (rw (offered-reinstall status ri)
          (one (not (text_eq status (codes "UNKNOWN"))) (codes "reinstall") r ri rs h'))
        (rw (offered-uninstall status u)
          (one (not (text_eq status (codes "UNKNOWN"))) (codes "uninstall") r u rs h''))

  -- A list goes on with a node, or without it.
  go_on :
      (p : ℕ → Bool) (children : List ℕ) (r : ℕ) (rs : List ℕ)
      → (if p r then children ++ r ∷ [] else children) ++ keep p rs ≡ children ++ keep p (r ∷ rs)
  go_on p children r rs = elim (Bool-cases (p r)) [
    | inl e ↦ rw e (append_assoc children (r ∷ []) (keep p rs))
    | inr e ↦ rw e refl
  ]

  stays :
      (b : Bool) (children : List ℕ) (r : ℕ) (rs : List ℕ)
      → Unrepeated o (children ++ r ∷ rs)
      → Unrepeated o ((if b then children ++ r ∷ [] else children) ++ rs)
  stays true children r rs h = subst (Unrepeated o) (sym (append_assoc children (r ∷ []) rs)) h
  stays false children r rs h = Unrepeated-without o children r rs h

  abbrev installable : ℕ → Bool
  installable r = can_install c (o r)

  abbrev uninstallable : ℕ → Bool
  uninstallable r = can_uninstall c (o r)

  -- One round of the loop, for a node that the chart is for or not.
  round :
      (r : ℕ) (i ri u rs : List ℕ)
      → Unrepeated o (i ++ r ∷ rs)
      → Unrepeated o (ri ++ r ∷ rs)
      → Unrepeated o (u ++ r ∷ rs)
      → (if fits c (o r)
          then set_children o (child_status (o r)) r (processes_of i ri u)
          else processes_of i ri u)
        ≡ processes_of
            (if installable r then i ++ r ∷ [] else i)
            (if uninstallable r then ri ++ r ∷ [] else ri)
            (if uninstallable r then u ++ r ∷ [] else u)
  round r i ri u rs h h' h'' = elim (Bool-cases (fits c (o r))) [
    | inl e ↦ rw e (set_children_lem r i ri u rs h h' h'')
    | inr e ↦ rw e refl
  ]

  children_loop_lem :
      (rs i ri u : List ℕ) (called service : Bool)
      → Unrepeated o (i ++ rs)
      → Unrepeated o (ri ++ rs)
      → Unrepeated o (u ++ rs)
      → children_loop c o rs (processes_of i ri u, called, service) ≡ (
        processes_of
            (i ++ keep installable rs)
            (ri ++ keep uninstallable rs)
            (u ++ keep uninstallable rs),
        any (λ r. fits c (o r)) rs || called,
        any (λ r. text_eq (o r).node_type (codes "Service")) rs || service,
      )
  unfolding children_loop
  children_loop_lem [] i ri u called service h h' h'' =
      rw (append-nil i, append-nil ri, append-nil u) refl
  children_loop_lem (r ∷ rs) i ri u called service h h' h'' =
      let ih =
        children_loop_lem rs (if installable r then i ++ r ∷ [] else i)
          (if uninstallable r then ri ++ r ∷ [] else ri)
          (if uninstallable r then u ++ r ∷ [] else u) (fits c (o r) || called)
          (text_eq (o r).node_type (codes "Service") || service) (stays (installable r) i r rs h)
          (stays (uninstallable r) ri r rs h') (stays (uninstallable r) u r rs h'') in
      rw (round r i ri u rs h h' h'') (
        ih ∙ λ k. (
          processes_of (go_on installable i r rs k) (go_on uninstallable ri r rs k)
              (go_on uninstallable u r rs k),
          or_swap (any (λ s. fits c (o s)) rs) (fits c (o r)) called k,
          or_swap (any (λ s. text_eq (o s).node_type (codes "Service")) rs)
              (text_eq (o r).node_type (codes "Service")) service k,
        ))

or_false : (a b d : Bool) → a ≡ b → (a || false) || d ≡ b || d
or_false a b d h = ground arith

or_false_end : (a b : Bool) → a ≡ b → (a || false) ≡ b
or_false_end a b h = ground arith

enabled :
    (called called' : Bool) (form : Option ProcessForm)
    → called' ≡ called
    → enable_process called' form
      ≡ Option.map
          (λ (f : ProcessForm). record f { process_enabled = called || f.process_enabled })
          form
enabled called called' none h = refl
enabled called called' (some f) h = rw h refl

abbrev pub is_service : Node → Bool
is_service n = text_eq n.node_type (codes "Service")

-- When the nodes come to a page whose processes have no nodes yet, and no two of them have the same
-- id: install has those that the chart is for but the deployed, reinstall and uninstall those but
-- the unknown, in the order of their names and with their statuses; a process without nodes is taken
-- out. The control for the choice of a process, in the form that the page has, is enabled exactly if
-- the chart is for a node or it was before; so is the flag that the children were set; and a service
-- node is available exactly if one came or one was before.
pub set_process_list_children_lem :
    (at_most : Text → Text → Bool) (c : Chart) (ss : List Status) (response : List Node) (p : Page)
    → p.process_list ≡ processes_of [] [] []
    → AreUnrepeated (sort (λ (a b : Node). at_most a.hostname b.hostname) response)
    → let q = set_process_list_children at_most c ss response p in
      let ns =
        map (with_status ss) (sort (λ (a b : Node). at_most a.hostname b.hostname) response) in
      (installs : List ℕ) × (others : List ℕ) × (q.process_list
        ≡ keep has_children (processes_of installs others others))
      × (map q.objects installs ≡ keep (can_install c) ns)
      × (map q.objects others ≡ keep (can_uninstall c) ns)
      × (q.process_form
          ≡ Option.map
              (λ (f : ProcessForm). record f {
                process_enabled = any (fits c) ns || f.process_enabled;
              })
              p.process_form)
      × (q.set_children_called ≡ any (fits c) ns || p.set_children_called)
      × (q.service_node_available ≡ any is_service ns || p.service_node_available)
unfolding set_process_list_children
set_process_list_children_lem at_most c ss response p e h =
    let ns = map (with_status ss) (sort (λ (a b : Node). at_most a.hostname b.hostname) response) in
    let o = allocate p.objects p.next ns in
    let rs = fresh p.next ns in
    let all = map-allocate p.objects p.next ns in
    let apart = Unrepeated-map o rs (
      subst AreUnrepeated (sym all) (
        AreUnrepeated-status ss (sort (λ (a b : Node). at_most a.hostname b.hostname) response)
          h)) in
    let loop = children_loop_lem c o rs [] [] [] false false apart apart apart in
    (
      keep (λ r. can_install c (o r)) rs,
      keep (λ r. can_uninstall c (o r)) rs,
      rw (e, loop) refl,
      map-keep o (can_install c) rs ∙ ap (keep (can_install c)) all,
      map-keep o (can_uninstall c) rs ∙ ap (keep (can_uninstall c)) all,
      rw (e, loop)
          (enabled (any (fits c) ns) _ p.process_form
            (or_false_end _ _ (any-map o (fits c) rs ∙ ap (any (fits c)) all))),
      rw (e, loop) (or_false _ _ _ (any-map o (fits c) rs ∙ ap (any (fits c)) all)),
      rw (e, loop) (or_false _ _ _ (any-map o is_service rs ∙ ap (any is_service) all)),
    )
