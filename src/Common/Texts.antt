-- ===== src/Common/Texts.antt =====
-- The strings of the program that are compared or taken apart.
use Prim.Native.Nat.{ℕ}
use Prim.Native.Char.{code}
use Prim.Native.String.{String}
use mathlib.Core.Path.{◌≡◌, refl, sym, subst}
use native.Mathlib.Omega.{arith}
use mathlib.Core.Logic.{◌⊎◌, inl, inr}
use mathlib.Core.Bool.{Bool, true, false, ◌&&◌, ◌||◌}
use mathlib.Core.List.{List, [], ◌∷◌, ◌++◌}
use hellogit.Common.Tests.{◌==◌, leb, if◌then◌else◌}

-- UTF-16 code units
abbrev pub Text : Type 0
Text = List ℕ

-- A literal, which is ASCII.
abbrev pub codes : String → Text
codes String.[] = []
codes (String.◌∷◌ c s) = code c ∷ codes s

-- `===`
abbrev pub text_eq : Text → Text → Bool
text_eq [] [] = true
text_eq (c ∷ cs) (d ∷ ds) = c == d && text_eq cs ds
text_eq _ _ = false

pub text_eq-eq : (s t : Text) → text_eq s t ≡ true → s ≡ t
text_eq-eq [] [] h = refl
text_eq-eq [] (d ∷ ds) h = cc
text_eq-eq (c ∷ cs) [] h = cc
text_eq-eq (c ∷ cs) (d ∷ ds) h = ground (arith, text_eq-eq cs ds)

pub text_eq_refl : (s : Text) → text_eq s s ≡ true
text_eq_refl [] = refl
text_eq_refl (c ∷ cs) = ground (arith, text_eq_refl cs)

pub text_eq_sym : (s t : Text) → text_eq s t ≡ text_eq t s
text_eq_sym [] [] = refl
text_eq_sym [] (d ∷ ds) = refl
text_eq_sym (c ∷ cs) [] = refl
text_eq_sym (c ∷ cs) (d ∷ ds) = ground (arith, text_eq_sym cs ds)

pub text_eq_trans : (s t u : Text) → text_eq s t ≡ true → text_eq t u ≡ true → text_eq s u ≡ true
text_eq_trans s t u h k = subst (λ x. text_eq x u ≡ true) (sym (text_eq-eq s t h)) k

-- White space and line terminators
unfoldable pub is_space : ℕ → Bool
is_space c =
    (leb 9 c && leb c 13)
    || c == 32
    || c == 0xA0
    || c == 0x1680
    || (leb 0x2000 c && leb c 0x200A)
    || c == 0x2028
    || c == 0x2029
    || c == 0x202F
    || c == 0x205F
    || c == 0x3000
    || c == 0xFEFF

unfoldable pub trim_start : Text → Text
trim_start [] = []
trim_start (c ∷ cs) = let rest = trim_start cs in if is_space c then rest else c ∷ cs

abbrev pub is_empty : Text → Bool
is_empty [] = true
is_empty (c ∷ cs) = false

unfoldable pub trim_end : Text → Text
trim_end [] = []
trim_end (c ∷ cs) = let rest = trim_end cs in if is_space c && is_empty rest then [] else c ∷ rest

abbrev pub trim : Text → Text
trim t = trim_end (trim_start t)

-- `startsWith`, and `indexOf(part) !== -1`
abbrev pub starts_with : Text → Text → Bool
starts_with [] xs = true
starts_with (c ∷ cs) [] = false
starts_with (c ∷ cs) (x ∷ xs) = if c == x then starts_with cs xs else false

unfoldable pub includes : Text → Text → Bool
includes part [] = starts_with part []
includes part (x ∷ xs) =
    let rest = includes part xs in if starts_with part (x ∷ xs) then true else rest

-- `join`
abbrev pub join_with : Text → List Text → Text
join_with separator [] = []
join_with separator (t ∷ []) = t
join_with separator (t ∷ u ∷ us) = t ++ (separator ++ join_with separator (u ∷ us))

-- `endsWith`
abbrev pub ends_with : Text → Text → Bool
ends_with part [] = text_eq part []
ends_with part (x ∷ xs) = text_eq part (x ∷ xs) || ends_with part xs

-- Not after, in the order of `<` on strings: by the first code unit that differs, and a text before
-- those that go on from it.
abbrev pub text_leb : Text → Text → Bool
text_leb [] ts = true
text_leb (c ∷ cs) [] = false
text_leb (c ∷ cs) (d ∷ ds) = if c == d then text_leb cs ds else leb c d

pub text_leb_total : (s t : Text) → (text_leb s t ≡ true) ⊎ (text_leb t s ≡ true)
text_leb_total [] t = inl refl
text_leb_total (c ∷ cs) [] = inr refl
text_leb_total (c ∷ cs) (d ∷ ds) = ground (arith, text_leb_total cs ds)

pub text_leb_trans :
    (s t u : Text) → text_leb s t ≡ true → text_leb t u ≡ true → text_leb s u ≡ true
text_leb_trans [] t u h k = refl
text_leb_trans (c ∷ cs) [] u h k = cc
text_leb_trans (c ∷ cs) (d ∷ ds) [] h k = cc
text_leb_trans (c ∷ cs) (d ∷ ds) (e ∷ es) h k = ground (arith, text_leb_trans cs ds es)
