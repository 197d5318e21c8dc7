-- ===== src/Cookies.antt =====
-- web/frontend/src/app/services/cookies.service.ts. What the browser makes of `document.cookie`,
-- and `decodeURIComponent`, are the argument: the decoded text.
pub mod Stored
mod Tests
use hellogit.Common.{
  Text, trim_start, ℕ, suc, zero, Bool, true, false, List, [], ◌∷◌, ◌++◌, if◌then◌else◌, ◌==◌,
}

-- What `set` assigns to `document.cookie`.
abbrev pub set : Text → Text → Text
set key value = key ++ b'=' ∷ value

-- `prefix` at the start: what stands behind it, as `indexOf(prefix) === 0` and `substring`.
pub data After : Type 0 where
  differs : After
  after : Text → After

abbrev pub after_prefix : Text → Text → After
after_prefix [] pair = after pair
after_prefix (c ∷ cs) [] = differs
after_prefix (c ∷ cs) (d ∷ ds) = if c == d then after_prefix cs ds else differs

-- The white space that `\s*` takes off the part behind a semicolon.
abbrev pub trim_first : List Text → List Text
trim_first [] = []
trim_first (t ∷ ts) = trim_start t ∷ ts

-- A character in front of the parts.
abbrev pub cons_first : ℕ → List Text → List Text
cons_first c [] = (c ∷ []) ∷ []
cons_first c (t ∷ ts) = (c ∷ t) ∷ ts

-- `split(/;\s*/)`
unfoldable pub split_pairs : Text → List Text
split_pairs [] = [] ∷ []
split_pairs (c ∷ cs) =
    let parts = split_pairs cs in if c == b';' then [] ∷ trim_first parts else cons_first c parts

-- One round of the loop of `get`.
abbrev pub choose_value : After → Text → Text
choose_value differs value = value
choose_value (after v) value = v

unfoldable pub get_from : Text → List Text → Text → Text
get_from prefix [] value = value
get_from prefix (pair ∷ pairs) value =
    get_from prefix pairs (choose_value (after_prefix prefix pair) value)

unfoldable pub get : Text → Text → Text
unfolding split_pairs get_from
get decoded key = get_from (key ++ b'=' ∷ []) (split_pairs decoded) []
