-- ===== src/Catalog.antt =====
-- web/frontend/src/app/modules/catalog/components/application-card/application-card.component.ts:
-- the card of one chart.
pub mod Colors
mod Tests
pub use hellogit.Common.{Text, text_eq}
use hellogit.Common.{
  ℕ, ◌+◌, String, Bool, true, false, not, ◌&&◌, ◌||◌, Option, none, some, List, [], ◌∷◌, map,
  if◌then◌else◌, ◌==◌, leb,
}

-- `toLowerCase`, as far as one of the constants below can be the result: the letters of ASCII, and
-- the Kelvin sign, which becomes a k.
abbrev lower : ℕ → ℕ
lower c = if leb b'A' c && leb c b'Z' then c + 32 else if c == 0x212A then b'k' else c

abbrev pub to_lower_case : Text → Text
to_lower_case = map lower

-- DEPLOYED in lower case, FAILED, ZEEK and SURICATA
abbrev pub deployed : Text
deployed = b'd' ∷ b'e' ∷ b'p' ∷ b'l' ∷ b'o' ∷ b'y' ∷ b'e' ∷ b'd' ∷ []

abbrev pub failed : Text
failed = b'f' ∷ b'a' ∷ b'i' ∷ b'l' ∷ b'e' ∷ b'd' ∷ []

abbrev pub zeek : Text
zeek = b'z' ∷ b'e' ∷ b'e' ∷ b'k' ∷ []

abbrev pub suricata : Text
suricata = b's' ∷ b'u' ∷ b'r' ∷ b'i' ∷ b'c' ∷ b'a' ∷ b't' ∷ b'a' ∷ []

-- RED, YELLOW, GREEN and WHITE
pub data Color : Type 0 where
  red yellow green white : Color

abbrev pub color_eq : Color → Color → Bool
color_eq red red = true
color_eq yellow yellow = true
color_eq green green = true
color_eq white white = true
color_eq _ _ = false

-- `hover_color_old === this.hover_color`
abbrev pub same_color : Option Color → Color → Bool
same_color none c = false
same_color (some old) c = color_eq old c

-- A chart is its application and the statuses of its nodes, which may be missing.
pub record Chart : Type 0 where
  pub application : Text
  pub nodes : Option (List Text)

-- `hover_color` is undefined at first; `detected` counts the calls of `detectChanges`.
pub record Card : Type 0 where
  pub chart : Chart
  pub rule_sync : Bool
  pub hover_color : Option Color
  pub hovered : Bool
  pub detected : ℕ

abbrev pub constructed : Chart → Bool → Card
constructed chart rule_sync = record {
  chart = chart;
  rule_sync = rule_sync;
  hover_color = none;
  hovered = false;
  detected = 0;
}

unfoldable pub mouseenter_hover_card : Card → Card
mouseenter_hover_card card = record card { hovered = true }

unfoldable pub mouseleave_hover_card : Card → Card
mouseleave_hover_card card = record card { hovered = false }

-- The loop over the nodes, with `in_progress` and `failed`.
unfoldable pub scan : List Text → Bool → Bool → Bool × Bool
scan [] in_progress is_failed = (in_progress, is_failed)
scan (s ∷ ss) in_progress is_failed =
    let status = to_lower_case s in
    let running = scan ss true is_failed in
    let bad = scan ss in_progress true in
    let fine = scan ss in_progress is_failed in
    if not (text_eq status deployed) && not (text_eq status failed)
    then running
    else if text_eq status failed
    then bad
    else fine

unfoldable pub chart_color : Chart → Color
unfolding scan
chart_color chart = elim chart.nodes [
  | none ↦ white
  | some [] ↦ white
  | some (s ∷ ss) ↦
      let (in_progress, is_failed) = scan (s ∷ ss) false false in
      if is_failed then red else if in_progress then yellow else green
]

-- `get_background_color`, the card and the result; `ngOnInit` calls it.
unfoldable pub get_background_color : Card → Card × Color
unfolding chart_color
get_background_color card =
    let color = chart_color card.chart in
    let same = same_color card.hover_color color in
    (
      record card {
        hover_color = some color;
        detected = if same then card.detected else card.detected + 1;
      },
      color,
    )

unfoldable pub is_disabled : Card → Bool
is_disabled card =
    (text_eq (to_lower_case card.chart.application) zeek
      || text_eq (to_lower_case card.chart.application) suricata)
    && card.rule_sync
