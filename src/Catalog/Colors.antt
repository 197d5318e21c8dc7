-- ===== src/Catalog/Colors.antt =====
-- What the color of a card says of its nodes.
use hellogit.Common.{
  ℕ, ◌+◌, ◌≡◌, refl, ◌≢◌, ◌↔◌, inl, inr, Bool, true, false, not, ◌&&◌, ◌||◌, Option, none, some,
  List, [], ◌∷◌, arith, any, every, if◌then◌else◌, Bool-cases,
}
use hellogit.Catalog.{
  Text, to_lower_case, text_eq, deployed, failed, Color, red, yellow, green, white, color_eq,
  same_color, Chart, Card, scan, chart_color, get_background_color,
}

abbrev pub is_deployed : Text → Bool
is_deployed s = text_eq (to_lower_case s) deployed

abbrev pub is_failed : Text → Bool
is_failed s = text_eq (to_lower_case s) failed

-- Neither deployed nor failed.
abbrev pub is_running : Text → Bool
is_running s = not (is_deployed s) && not (is_failed s)

or_true : (b : Bool) → (b || true) ≡ true
or_true true = refl
or_true false = refl

scan_lem :
    (ss : List Text) (p f : Bool) → scan ss p f ≡ (p || any is_running ss, f || any is_failed ss)
unfolding scan
scan_lem [] true true = refl
scan_lem [] true false = refl
scan_lem [] false true = refl
scan_lem [] false false = refl
scan_lem (s ∷ ss) p f = elim (Bool-cases (is_deployed s)) [
  | inl d ↦ elim (Bool-cases (is_failed s)) [
    | inl e ↦ rw (d, e, scan_lem ss p true, or_true f) refl
    | inr e ↦ rw (d, e) (scan_lem ss p f)
  ]
  | inr d ↦ elim (Bool-cases (is_failed s)) [
    | inl e ↦ rw (d, e, scan_lem ss p true, or_true f) refl
    | inr e ↦ rw (d, e, scan_lem ss true f, or_true p) refl
  ]
]

-- What a color says of the nodes.
abbrev pub Says : Color → List Text → Type 0
Says red ss = any is_failed ss ≡ true
Says yellow ss = (any is_failed ss ≡ false) × (any is_running ss ≡ true)
Says green ss = (ss ≢ []) × (every is_deployed ss ≡ true) × (any is_failed ss ≡ false)
Says white ss = ss ≡ []

all_deployed :
    (ss : List Text)
    → any is_failed ss ≡ false
    → any is_running ss ≡ false
    → every is_deployed ss ≡ true
all_deployed [] f r = refl
all_deployed (s ∷ ss) f r = elim (Bool-cases (is_deployed s)) [
  | inl d ↦ elim (Bool-cases (is_failed s)) [
    | inl e ↦ ground arith
    | inr e ↦ rw d (all_deployed ss (rw e at f) (rw d at r))
  ]
  | inr d ↦ elim (Bool-cases (is_failed s)) [ inl e ↦ ground arith | inr e ↦ ground arith ]
]

abbrev pub nodes_of : Chart → List Text
nodes_of chart = elim chart.nodes [ none ↦ [] | some ss ↦ ss ]

by_flags :
    (s : Text) (ss : List Text) (in_progress failing : Bool)
    → any is_running (s ∷ ss) ≡ in_progress
    → any is_failed (s ∷ ss) ≡ failing
    → Says (if failing then red else if in_progress then yellow else green) (s ∷ ss)
by_flags s ss in_progress true r f = f
by_flags s ss true false r f = (f, r)
by_flags s ss false false r f = ((λ e. cc), all_deployed (s ∷ ss) f r, f)

by_nodes :
    (application : Text) (nodes : Option (List Text))
    → let chart : Chart = record { application = application; nodes = nodes } in
      Says (chart_color chart) (nodes_of chart)
unfolding chart_color
by_nodes application none = refl
by_nodes application (some []) = refl
by_nodes application (some (s ∷ ss)) =
    rw (scan_lem (s ∷ ss) false false)
      (by_flags s ss (any is_running (s ∷ ss)) (any is_failed (s ∷ ss)) refl refl)

color_eq_iff : (c d : Color) → (color_eq c d ≡ true) ↔ (c ≡ d)
color_eq_iff c d = ground arith

same_color_iff : (o : Option Color) (c : Color) → (same_color o c ≡ true) ↔ (o ≡ some c)
same_color_iff none c = (λ h. cc, λ h. cc)
same_color_iff (some d) c = ground (arith, (color_eq_iff d c).0, (color_eq_iff d c).1)

detects :
    (o : Option Color) (c : Color) (n : ℕ)
    → ((if same_color o c then n else n + 1) ≡ n) ↔ (o ≡ some c)
detects o c n = elim (Bool-cases (same_color o c)) [
  | inl e ↦ ((λ _. (same_color_iff o c).0 e), λ _. rw e refl)
  | inr e ↦ (
    (λ h. let bad : n + 1 ≡ n = rw e at h in absurd (omega arith)),
    λ h. let t = (same_color_iff o c).1 h in cc,
  )
]

-- The card is red only with a failed node, yellow only with no failed node and one that is neither
-- deployed nor failed, green only with nodes that are all deployed and none failed, and white only
-- with no nodes. It keeps its color, and leaves out the change detection exactly when it had that
-- color before.
pub get_background_color-Says :
    (card : Card)
    → let (after, color) = get_background_color card in
      Says color (nodes_of card.chart)
      × (after.hover_color ≡ some color)
      × ((after.detected ≡ card.detected) ↔ (card.hover_color ≡ some color))
unfolding get_background_color
get_background_color-Says card = (
  by_nodes card.chart.application card.chart.nodes,
  refl,
  detects card.hover_color (chart_color card.chart) card.detected,
)
