-- ===== src/Subnet/Prefixes.antt =====
-- Addresses of four octets, and netmasks of leading ones.
use Prim.Native.Nat.{◌<◌}
use hellogit.Common.{
  Text, ℕ, zero, ◌+◌, ◌-◌, ◌*◌, ◌/◌, ◌%◌, ◌^◌, ◌≤◌, ◌≡◌, ◌↔◌, subst, ap, ◌∙◌, true, [], ◌∷◌, map,
  arith,
}
use hellogit.Subnet.{
  number, split_at, to_binary, join, netmask_to_cidr, reduce_octets, ipv4_to_int, is_ipv4_in_subnet,
}
use hellogit.Subnet.Octets.{
  ones, ones-zero, ones-join, ones-leading, sum_ones, count-join, length-split_at,
}
use hellogit.Subnet.Masks.{is_ipv4_in_subnet_iff}

-- Four numbers below 256 with a dot between them.
pub record IsAddress (t : Text) : Type 0 where
  pub first : Text
  pub second : Text
  pub third : Text
  pub fourth : Text
  pub splits : split_at b'.' t ≡ first ∷ second ∷ third ∷ fourth ∷ []
  pub first_small : number first < 256
  pub second_small : number second < 256
  pub third_small : number third < 256
  pub fourth_small : number fourth < 256

value_lem :
    (t : Text) (a : IsAddress t)
    → ipv4_to_int t
      ≡ number a.first * 2 ^ 24
        + (number a.second * 2 ^ 16 + (number a.third * 2 ^ 8 + number a.fourth))
unfolding ipv4_to_int reduce_octets
value_lem t a =
    ap (λ parts. reduce_octets 0 parts % 2 ^ 32) a.splits
    ∙ omega (arith, a.first_small, a.second_small, a.third_small, a.fourth_small)

-- The number of an address of four octets has them as its four bytes, so it stands below 2 ^ 32 and
-- differs for different octets.
pub ipv4_to_int_lem :
    (t : Text) (a : IsAddress t)
    → let n = ipv4_to_int t in
      (n < 2 ^ 32)
      × (n / 16777216 ≡ number a.first)
      × (n / 65536 % 256 ≡ number a.second)
      × (n / 256 % 256 ≡ number a.third)
      × (n % 256 ≡ number a.fourth)
ipv4_to_int_lem t a =
    let v = value_lem t a in
    let f = a.first_small in
    let s = a.second_small in
    let r = a.third_small in
    let q = a.fourth_small in
    (
      omega (arith, v, f, s, r, q),
      omega (arith, v, f, s, r, q),
      omega (arith, v, f, s, r, q),
      omega (arith, v, f, s, r, q),
      omega (arith, v, f, s, r, q),
    )

ones_octet : (n : ℕ) → n < 256 → ones 32 (n % 2 ^ 32) ≡ ones 8 n
ones_octet n h =
    let e : n % 2 ^ 32 ≡ zero * 2 ^ 8 + n = omega (arith, h) in
    rw e (ones-join 8 24 0 n h ∙ omega (arith, ones-zero 24))

-- The ones of the octets together
ones_lem : (t : Text) (a : IsAddress t) → sum_ones (split_at b'.' t) ≡ ones 32 (ipv4_to_int t)
ones_lem t a =
    let f = a.first_small in
    let s = a.second_small in
    let r = a.third_small in
    let q = a.fourth_small in
    rw (a.splits, value_lem t a)
      (omega (
        arith,
        ones_octet (number a.first) f,
        ones_octet (number a.second) s,
        ones_octet (number a.third) r,
        ones_octet (number a.fourth) q,
        ones-join 24 8 (number a.first)
            (number a.second * 2 ^ 16 + (number a.third * 2 ^ 8 + number a.fourth))
            (omega (arith, s, r, q)),
        ones-join 16 8 (number a.second) (number a.third * 2 ^ 8 + number a.fourth)
            (omega (arith, r, q)),
        ones-join 8 8 (number a.third) (number a.fourth) q,
      ))

netmask_to_cidr_lem : (t : Text) (a : IsAddress t) → netmask_to_cidr t ≡ ones 32 (ipv4_to_int t)
unfolding netmask_to_cidr
netmask_to_cidr_lem t a = omega (
  arith,
  length-split_at b'1' (join (map (λ part. to_binary 32 (number part % 2 ^ 32)) (split_at b'.' t))),
  count-join (split_at b'.' t),
  ones_lem t a,
)

-- With a netmask of four octets that has k leading ones and no others, an address is in the subnet
-- exactly when it has the same first k bits as the network's address.
pub is_ipv4_in_subnet_prefix :
    (ip network_ip netmask : Text) (k : ℕ)
    → IsAddress netmask
    → k ≤ 32
    → ipv4_to_int netmask ≡ 2 ^ 32 - 2 ^ (32 - k)
    → (is_ipv4_in_subnet ip network_ip netmask ≡ true)
      ↔ (ipv4_to_int ip / 2 ^ (32 - k) ≡ ipv4_to_int network_ip / 2 ^ (32 - k))
is_ipv4_in_subnet_prefix ip network_ip netmask k a h e =
    let s : (32 - k) + k ≡ 32 = omega (arith, h) in
    let o : ones 32 (2 ^ 32 - 2 ^ (32 - k)) ≡ k =
      subst (λ w. ones w (2 ^ w - 2 ^ (32 - k)) ≡ k) s (ones-leading (32 - k) k) in
    let bits : netmask_to_cidr netmask ≡ k = netmask_to_cidr_lem netmask a ∙ (ap (ones 32) e ∙ o) in
    subst
      (λ b.
        (is_ipv4_in_subnet ip network_ip netmask ≡ true)
        ↔ (ipv4_to_int ip / 2 ^ (32 - b) ≡ ipv4_to_int network_ip / 2 ^ (32 - b)))
      bits (is_ipv4_in_subnet_iff ip network_ip netmask)
