-- ===== src/Subnet.antt =====
-- web/frontend/src/app/classes/data-methods.class.ts: whether an IPv4 address is in a subnet.
--
-- The bitwise operators of JavaScript work on 32 bits. A number stands here for its residue below
-- 2 ^ 32, which is what `<<`, `~`, `&` and `>>> 0` depend on.
pub mod Masks
pub mod Octets
pub mod Prefixes
mod Tests
use hellogit.Common.{
  Text, ℕ, zero, suc, ◌+◌, ◌-◌, ◌*◌, ◌/◌, ◌%◌, ◌^◌, Bool, List, [], ◌∷◌, ◌++◌, map, ◌==◌,
  if◌then◌else◌, length, ltb,
}

-- `split` at one character
abbrev first_with : ℕ → List Text → List Text
first_with c [] = (c ∷ []) ∷ []
first_with c (part ∷ parts) = (c ∷ part) ∷ parts

unfoldable pub split_at : ℕ → Text → List Text
split_at separator [] = [] ∷ []
split_at separator (c ∷ cs) =
    let parts = split_at separator cs in if c == separator then [] ∷ parts else first_with c parts

-- `Number` and `parseInt(_, 10)` of digits
abbrev pub number_from : ℕ → Text → ℕ
number_from so_far [] = so_far
number_from so_far (c ∷ cs) = number_from (so_far * 10 + (c - 48)) cs

abbrev pub number : Text → ℕ
number t = number_from 0 t

-- `(part >>> 0).toString(2)`: a number of 32 bits has at most 32 digits.
unfoldable pub to_binary : ℕ → ℕ → Text
to_binary zero n = []
to_binary (suc digits) n =
    let rest = to_binary digits (n / 2) in
    if ltb n 2 then (48 + n) ∷ [] else rest ++ (48 + n % 2) ∷ []

-- `join('')`
abbrev pub join : List Text → Text
join [] = []
join (t ∷ ts) = t ++ join ts

unfoldable pub netmask_to_cidr : Text → ℕ
unfolding split_at to_binary
netmask_to_cidr netmask =
    let ret_val =
      join (map (λ part. to_binary 32 (number part % 2 ^ 32)) (split_at b'.' netmask)) in
    length (split_at b'1' ret_val) - 1

-- The function of `reduce`, over the octets
unfoldable pub reduce_octets : ℕ → List Text → ℕ
reduce_octets int [] = int
reduce_octets int (oct ∷ octs) = reduce_octets (int * 256 % 2 ^ 32 + number oct) octs

unfoldable pub ipv4_to_int : Text → ℕ
unfolding split_at reduce_octets
ipv4_to_int ip = reduce_octets 0 (split_at b'.' ip) % 2 ^ 32

-- `x & y` on so many bits
unfoldable pub bit_and : ℕ → ℕ → ℕ → ℕ
bit_and zero x y = 0
bit_and (suc bits) x y = (x % 2) * (y % 2) + 2 * bit_and bits (x / 2) (y / 2)

-- `~(2 ** (32 - bits) - 1)`. For more than 32 bits the power is a fraction, and its complement that
-- of 0.
abbrev pub mask_of : ℕ → ℕ
mask_of bits = 2 ^ 32 - 1 - (2 ^ (32 - bits) - 1)

unfoldable pub is_ipv4_in_subnet : Text → Text → Text → Bool
unfolding netmask_to_cidr ipv4_to_int bit_and
is_ipv4_in_subnet ip network_ip netmask =
    let mask = mask_of (netmask_to_cidr netmask) in
    bit_and 32 (ipv4_to_int ip) mask == bit_and 32 (ipv4_to_int network_ip) mask
