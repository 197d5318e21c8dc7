-- ===== src/Catalog/Tests.antt =====
-- The theorem on cards, applied.
use hellogit.Common.{◌≡◌, refl, false, some, [], ◌∷◌}
use hellogit.Catalog.{zeek, red, Chart, Card, constructed, get_background_color, chart_color, scan}

-- One node `DEPLOYED`, one `Failed`, and one `x`.
abbrev chart : Chart
chart = record {
  application = zeek;
  nodes = some (
      (b'D' ∷ b'E' ∷ b'P' ∷ b'L' ∷ b'O' ∷ b'Y' ∷ b'E' ∷ b'D' ∷ [])
      ∷ (b'F' ∷ b'a' ∷ b'i' ∷ b'l' ∷ b'e' ∷ b'd' ∷ [])
      ∷ (b'x' ∷ [])
      ∷ []);
}

abbrev card : Card
card = constructed chart false

is_red : (get_background_color card).1 ≡ red
unfolding get_background_color chart_color scan
is_red = refl
