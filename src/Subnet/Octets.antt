-- ===== src/Subnet/Octets.antt =====
-- The numbers of addresses and netmasks of four octets.
use Prim.Native.Nat.{◌<◌}
use native.Mathlib.Nat.{two-pow-succ, mul-add}
use hellogit.Common.{
  Text, ℕ, zero, suc, ◌+◌, ◌-◌, ◌*◌, ◌/◌, ◌%◌, ◌^◌, ◌≡◌, refl, ap, ◌∙◌, inl, inr, List, [], ◌∷◌,
  ◌++◌, map, ◌==◌, ltb, arith, length, if◌then◌else◌, Bool-cases,
}
use hellogit.Subnet.Masks.{power_pos}
use hellogit.Subnet.{number, split_at, first_with, to_binary, join}

-- The ones among so many binary digits.
unfoldable pub ones : ℕ → ℕ → ℕ
ones zero n = 0
ones (suc bits) n = n % 2 + ones bits (n / 2)

abbrev pub count : ℕ → Text → ℕ
count c [] = 0
count c (d ∷ ds) = (if d == c then 1 else 0) + count c ds

length-first_with :
    (c : ℕ) (parts : List Text) (n : ℕ) → length parts ≡ suc n → length (first_with c parts) ≡ suc n
length-first_with c [] n h = absurd (omega (arith, h))
length-first_with c (p ∷ ps) n h = h

pub length-split_at :
    (separator : ℕ) (t : Text) → length (split_at separator t) ≡ suc (count separator t)
unfolding split_at
length-split_at separator [] = refl
length-split_at separator (c ∷ cs) =
    let rest = length-split_at separator cs in
    elim (Bool-cases (c == separator)) [
      | inl e ↦ rw e (omega (arith, rest))
      | inr e ↦
          rw e (length-first_with c (split_at separator cs) (count separator cs) rest ∙ omega arith)
    ]

count-append : (c : ℕ) (s t : Text) → count c (s ++ t) ≡ count c s + count c t
count-append c [] t = omega arith
count-append c (d ∷ ds) t = omega (arith, count-append c ds t)

pub ones-zero : (bits : ℕ) → ones bits 0 ≡ 0
unfolding ones
ones-zero zero = refl
ones-zero (suc bits) = omega (arith, ones-zero bits)

digit_lem : (b : ℕ) → b < 2 → (if (48 + b) == b'1' then 1 else 0) ≡ b
digit_lem zero h = refl
digit_lem (suc zero) h = refl
digit_lem (suc (suc b)) h = absurd (omega (arith, h))

count-to_binary : (digits n : ℕ) → n < 2 ^ digits → count b'1' (to_binary digits n) ≡ ones digits n
unfolding to_binary ones
count-to_binary zero n h = refl
count-to_binary (suc digits) n h =
    let rest = count-to_binary digits (n / 2) (omega (arith, h, two-pow-succ digits)) in
    elim (Bool-cases (ltb n 2)) [
      | inl e ↦ rw e (
          let small : n < 2 = ground arith in
          let half : n / 2 ≡ 0 = omega (arith, small) in
          let none_left = ap (ones digits) half ∙ ones-zero digits in
          omega (arith, digit_lem n small, none_left, small))
      | inr e ↦ rw e (
          omega (
            arith,
            count-append b'1' (to_binary digits (n / 2)) ((48 + n % 2) ∷ []),
            digit_lem (n % 2) (omega arith),
            rest,
          ))
    ]

abbrev pub sum_ones : List Text → ℕ
sum_ones [] = 0
sum_ones (t ∷ ts) = ones 32 (number t % 2 ^ 32) + sum_ones ts

pub count-join :
    (parts : List Text)
    → count b'1' (join (map (λ part. to_binary 32 (number part % 2 ^ 32)) parts)) ≡ sum_ones parts
count-join [] = refl
count-join (t ∷ ts) = omega (
  arith,
  count-append b'1' (to_binary 32 (number t % 2 ^ 32))
      (join (map (λ part. to_binary 32 (number part % 2 ^ 32)) ts)),
  count-to_binary 32 (number t % 2 ^ 32) (omega arith),
  count-join ts,
)

-- The ones of m digits in front of n others.
pub ones-join : (n m a b : ℕ) → b < 2 ^ n → ones (n + m) (a * 2 ^ n + b) ≡ ones m a + ones n b
unfolding ones
ones-join zero m a b h =
    let e : zero + m ≡ m = omega arith in
    let f : a * 2 ^ zero + b ≡ a = omega (arith, h) in rw (e, f) (omega arith)
ones-join (suc n) m a b h =
    let e : suc n + m ≡ suc (n + m) = omega arith in
    let d : a * 2 ^ suc n ≡ a * 2 ^ n + a * 2 ^ n =
      ap (λ x. a * x) (two-pow-succ n) ∙ mul-add a (2 ^ n) (2 ^ n) in
    let half : (a * 2 ^ suc n + b) / 2 ≡ a * 2 ^ n + b / 2 = omega (arith, d) in
    let last : (a * 2 ^ suc n + b) % 2 ≡ b % 2 = omega (arith, d) in
    let rest = ones-join n m a (b / 2) (omega (arith, h, two-pow-succ n)) in
    rw e (rw (half, last, rest) (omega arith))

ones_all : (k : ℕ) → ones k (2 ^ k - 1) ≡ k
unfolding ones
ones_all zero = refl
ones_all (suc k) =
    let odd : (2 ^ suc k - 1) % 2 ≡ 1 = omega (arith, two-pow-succ k, power_pos k) in
    let half : (2 ^ suc k - 1) / 2 ≡ 2 ^ k - 1 = omega (arith, two-pow-succ k, power_pos k) in
    rw (odd, half, ones_all k) (omega arith)

-- k ones in front of j zeros
pub ones-leading : (j k : ℕ) → ones (j + k) (2 ^ (j + k) - 2 ^ j) ≡ k
unfolding ones
ones-leading zero k = let e : zero + k ≡ k = omega arith in rw e (ones_all k)
ones-leading (suc j) k =
    let e : suc j + k ≡ suc (j + k) = omega arith in
    let even : (2 ^ suc (j + k) - 2 ^ suc j) % 2 ≡ 0 =
      omega (arith, two-pow-succ (j + k), two-pow-succ j) in
    let half : (2 ^ suc (j + k) - 2 ^ suc j) / 2 ≡ 2 ^ (j + k) - 2 ^ j =
      omega (arith, two-pow-succ (j + k), two-pow-succ j) in
    rw e (rw (even, half, ones-leading j k) (omega arith))
