-- ===== src/Cookies/Tests.antt =====
-- The theorem on cookies, applied.
use hellogit.Common.{trim_start, is_space, ◌≡◌, refl, [], ◌∷◌}
use hellogit.Cookies.{get, get_from, split_pairs}
use hellogit.Cookies.Stored.{Cookie, IsCookie, written, last_value, get_lem}

-- `a=1; ab=2`
abbrev one : Cookie
one = (b'a' ∷ [], b'1' ∷ [])

abbrev two : Cookie
two = (b'a' ∷ b'b' ∷ [], b'2' ∷ [])

one-IsCookie : IsCookie one
unfolding trim_start is_space
one-IsCookie = record { no_semicolon = refl; no_space = refl; no_equals = refl }

two-IsCookie : IsCookie two
unfolding trim_start is_space
two-IsCookie = record { no_semicolon = refl; no_space = refl; no_equals = refl }

found : get (written (one ∷ two ∷ [])) (b'a' ∷ []) ≡ b'1' ∷ []
unfolding get get_from split_pairs trim_start is_space
found = refl

get_lem_example :
    get (written (one ∷ two ∷ [])) (b'a' ∷ []) ≡ last_value (b'a' ∷ []) (one ∷ two ∷ []) []
get_lem_example = get_lem (b'a' ∷ []) one (two ∷ []) refl (one-IsCookie, (two-IsCookie, tt))
