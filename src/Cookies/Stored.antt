-- ===== src/Cookies/Stored.antt =====
-- What `get` finds among cookies as a browser writes them.
use hellogit.Common.{
  Text, text_eq, trim_start, is_space, ◌≡◌, refl, ap, ◌∙◌, inl, inr, Bool, true, false, List, [],
  ◌∷◌, ◌++◌, arith, if◌then◌else◌, ◌==◌, any, All, Bool-cases,
}
use hellogit.Cookies.{
  set, differs, after, after_prefix, trim_first, cons_first, split_pairs, choose_value, get_from,
  get,
}

-- A cookie: its name and its value.
abbrev pub Cookie : Type 0
Cookie = Text × Text

abbrev pub render : Cookie → Text
render (name, value) = set name value

-- `a=1; b=2`
abbrev pub written : List Cookie → Text
written [] = []
written (c ∷ []) = render c
written (c ∷ d ∷ ds) = render c ++ b';' ∷ b' ' ∷ written (d ∷ ds)

-- No semicolon, no white space in front, and no `=` in the name.
pub record IsCookie (c : Cookie) : Type 0 where
  pub no_semicolon : any (λ d. d == b';') (render c) ≡ false
  pub no_space : trim_start (render c) ≡ render c
  pub no_equals : any (λ d. d == b'=') c.0 ≡ false

-- The value of the last cookie of the name, or else what is given.
abbrev pub last_value : Text → List Cookie → Text → Text
last_value key [] value = value
last_value key ((name, v) ∷ cs) value = last_value key cs (if text_eq key name then v else value)

split-plain : (t : Text) → any (λ d. d == b';') t ≡ false → split_pairs t ≡ t ∷ []
unfolding split_pairs
split-plain [] h = refl
split-plain (c ∷ cs) h = elim (Bool-cases (c == b';')) [
  | inl e ↦ ground arith
  | inr e ↦ rw (e, split-plain cs (ground arith)) refl
]

split-semicolon :
    (t rest : Text)
    → any (λ d. d == b';') t ≡ false
    → split_pairs (t ++ b';' ∷ rest) ≡ t ∷ trim_first (split_pairs rest)
unfolding split_pairs
split-semicolon [] rest h = refl
split-semicolon (c ∷ cs) rest h = elim (Bool-cases (c == b';')) [
  | inl e ↦ ground arith
  | inr e ↦ rw (e, split-semicolon cs rest (ground arith)) refl
]

abbrev rendered : List Cookie → List Text
rendered [] = []
rendered (c ∷ cs) = render c ∷ rendered cs

after_name :
    (key name value : Text)
    → any (λ d. d == b'=') key ≡ false
    → any (λ d. d == b'=') name ≡ false
    → after_prefix (key ++ b'=' ∷ []) (render (name, value))
      ≡ (if text_eq key name then after value else differs)
after_name [] [] value h k = refl
after_name [] (d ∷ ds) value h k = ground arith
after_name (c ∷ cs) [] value h k = ground arith
after_name (c ∷ cs) (d ∷ ds) value h k = elim (Bool-cases (c == d)) [
  | inl e ↦ rw (e, after_name cs ds value (ground arith) (ground arith)) refl
  | inr e ↦ rw e refl
]

chosen :
    (same : Bool) (v value : Text)
    → choose_value (if same then after v else differs) value ≡ (if same then v else value)
chosen true v value = refl
chosen false v value = refl

get_from_lem :
    (key : Text) (cs : List Cookie) (value : Text)
    → any (λ d. d == b'=') key ≡ false
    → All IsCookie cs
    → get_from (key ++ b'=' ∷ []) (rendered cs) value ≡ last_value key cs value
unfolding get_from
get_from_lem key [] value k h = refl
get_from_lem key ((name, v) ∷ cs) value k h =
    ap (λ w. get_from (key ++ b'=' ∷ []) (rendered cs) w)
      (ap (λ a. choose_value a value) (after_name key name v k h.0.no_equals)
        ∙ chosen (text_eq key name) v value)
    ∙ get_from_lem key cs (if text_eq key name then v else value) k h.1

space_first :
    (t : Text) (ts : List Text) → trim_first (cons_first b' ' (t ∷ ts)) ≡ trim_start t ∷ ts
unfolding trim_start is_space
space_first t ts = refl

split-space : (t : Text) → split_pairs (b' ' ∷ t) ≡ cons_first b' ' (split_pairs t)
unfolding split_pairs
split-space t = refl

split-written :
    (c : Cookie) (cs : List Cookie)
    → All IsCookie (c ∷ cs)
    → split_pairs (written (c ∷ cs)) ≡ rendered (c ∷ cs)
split-written c [] h = split-plain (render c) h.0.no_semicolon
split-written c (d ∷ ds) h =
    split-semicolon (render c) (b' ' ∷ written (d ∷ ds)) h.0.no_semicolon
    ∙ ap (λ ts. render c ∷ trim_first ts)
        (split-space (written (d ∷ ds)) ∙ ap (cons_first b' ') (split-written d ds h.1))
    ∙ ap (λ ts. render c ∷ ts)
        (space_first (render d) (rendered ds) ∙ ap (λ t. t ∷ rendered ds) h.1.0.no_space)

-- Among cookies as `set` writes them, joined as `a=1; b=2`, with no semicolon, no white space in front and no
-- `=` in a name, `get` returns the value of the last one of the name, and the empty text if there is
-- none. The name that is asked for has no `=` either.
pub get_lem :
    (key : Text) (c : Cookie) (cs : List Cookie)
    → any (λ d. d == b'=') key ≡ false
    → All IsCookie (c ∷ cs)
    → get (written (c ∷ cs)) key ≡ last_value key (c ∷ cs) []
unfolding get
get_lem key c cs k h =
    ap (λ ts. get_from (key ++ b'=' ∷ []) ts []) (split-written c cs h)
    ∙ get_from_lem key (c ∷ cs) [] k h
