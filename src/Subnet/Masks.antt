-- ===== src/Subnet/Masks.antt =====
-- `&` with a mask of leading ones.
use Prim.Native.Nat.{◌<◌}
use native.Mathlib.Nat.{two-pow-succ, div-one, div-div-eq-div-mul}
use hellogit.Common.{
  Text, ℕ, zero, suc, ◌-◌, ◌/◌, ◌%◌, ◌^◌, ◌≤◌, ◌≡◌, ◌↔◌, sym, ap, ◌∙◌, true, ==_iff, arith,
}
use hellogit.Subnet.{bit_and, mask_of, netmask_to_cidr, ipv4_to_int, is_ipv4_in_subnet}

pub power_pos : (w : ℕ) → 1 ≤ 2 ^ w
power_pos zero = omega arith
power_pos (suc w) = omega (arith, two-pow-succ w, power_pos w)

bit_and-ones : (w x : ℕ) → x < 2 ^ w → bit_and w x (2 ^ w - 1) ≡ x
unfolding bit_and
bit_and-ones zero x h = omega (arith, h)
bit_and-ones (suc w) x h =
    let odd : (2 ^ suc w - 1) % 2 ≡ 1 = omega (arith, two-pow-succ w, power_pos w) in
    let half : (2 ^ suc w - 1) / 2 ≡ 2 ^ w - 1 = omega (arith, two-pow-succ w, power_pos w) in
    let rest = bit_and-ones w (x / 2) (omega (arith, h, two-pow-succ w)) in
    rw (odd, half, rest) (omega arith)

-- All ones but for the last k of w.
abbrev leading : ℕ → ℕ → ℕ
leading w k = 2 ^ w - 1 - (2 ^ k - 1)

half_lem : (k x : ℕ) → x / 2 / 2 ^ k ≡ x / 2 ^ suc k
half_lem k x = div-div-eq-div-mul x 2 (2 ^ k) ∙ ap (λ n. x / n) (omega (arith, two-pow-succ k))

bit_and-leading :
    (w k x y : ℕ)
    → k ≤ w
    → x < 2 ^ w
    → y < 2 ^ w
    → (bit_and w x (leading w k) ≡ bit_and w y (leading w k)) ↔ (x / 2 ^ k ≡ y / 2 ^ k)
unfolding bit_and
bit_and-leading w zero x y h i j =
    let e : leading w 0 ≡ 2 ^ w - 1 = omega arith in
    rw (e, bit_and-ones w x i, bit_and-ones w y j, div-one x, div-one y) ((λ a. a), (λ a. a))
bit_and-leading zero (suc k) x y h i j = absurd (omega (arith, h))
bit_and-leading (suc w) (suc k) x y h i j =
    let even : leading (suc w) (suc k) % 2 ≡ 0 =
      omega (arith, two-pow-succ w, two-pow-succ k, power_pos w, power_pos k) in
    let half : leading (suc w) (suc k) / 2 ≡ leading w k =
      omega (arith, two-pow-succ w, two-pow-succ k, power_pos w, power_pos k) in
    let (f, g) =
      bit_and-leading w k (x / 2) (y / 2) (omega (arith, h)) (omega (arith, i, two-pow-succ w))
        (omega (arith, j, two-pow-succ w)) in
    rw (even, half)
      (
        (λ a. sym (half_lem k x) ∙ (f (omega (arith, a)) ∙ half_lem k y)),
        (λ a. let b = g (half_lem k x ∙ (a ∙ sym (half_lem k y))) in omega (arith, b)),
      )

-- An address is in a subnet exactly when it and the network's address agree in as many leading bits
-- as the netmask has ones, or in all 32 where it has more.
pub is_ipv4_in_subnet_iff :
    (ip network_ip netmask : Text)
    → let bits = netmask_to_cidr netmask in
      (is_ipv4_in_subnet ip network_ip netmask ≡ true)
      ↔ (ipv4_to_int ip / 2 ^ (32 - bits) ≡ ipv4_to_int network_ip / 2 ^ (32 - bits))
unfolding is_ipv4_in_subnet ipv4_to_int
is_ipv4_in_subnet_iff ip network_ip netmask =
    let bits = netmask_to_cidr netmask in
    let (f, g) =
      bit_and-leading 32 (32 - bits) (ipv4_to_int ip) (ipv4_to_int network_ip) (omega arith)
        (omega arith) (omega arith) in
    let (s, t) =
      ==_iff (bit_and 32 (ipv4_to_int ip) (mask_of bits))
        (bit_and 32 (ipv4_to_int network_ip) (mask_of bits)) in
    ((λ h. f (s h)), (λ h. t (g h)))
