-- ===== src/Subnet/Tests.antt =====
-- 192.168.1.0/24 and an address in it, and the theorems at them.
use Prim.Native.Nat.{◌<◌}
use hellogit.Common.{Text, codes, ◌-◌, ◌/◌, ◌%◌, ◌^◌, ◌≡◌, ◌↔◌, refl, true, false, arith}
use hellogit.Subnet.{
  number, split_at, to_binary, netmask_to_cidr, reduce_octets, ipv4_to_int, bit_and,
  is_ipv4_in_subnet,
}
use hellogit.Subnet.Prefixes.{IsAddress, ipv4_to_int_lem, is_ipv4_in_subnet_prefix}

abbrev home : Text
home = codes "192.168.1.0"

abbrev netmask : Text
netmask = codes "255.255.255.0"

abbrev host : Text
host = codes "192.168.1.77"

in_home :
    (netmask_to_cidr netmask ≡ 24)
    × (ipv4_to_int host ≡ 3232235853)
    × (is_ipv4_in_subnet host home netmask ≡ true)
    × (is_ipv4_in_subnet (codes "192.168.2.77") home netmask ≡ false)
    × (is_ipv4_in_subnet (codes "10.0.0.1") home (codes "0.0.0.0") ≡ true)
unfolding is_ipv4_in_subnet netmask_to_cidr ipv4_to_int bit_and to_binary split_at reduce_octets
in_home = (refl, refl, refl, refl, refl)

netmask-IsAddress : IsAddress netmask
unfolding split_at
netmask-IsAddress = record {
  first = codes "255";
  second = codes "255";
  third = codes "255";
  fourth = codes "0";
  splits = refl;
  first_small = omega arith;
  second_small = omega arith;
  third_small = omega arith;
  fourth_small = omega arith;
}

netmask_number : ipv4_to_int netmask ≡ 2 ^ 32 - 2 ^ (32 - 24)
unfolding ipv4_to_int split_at reduce_octets
netmask_number = refl

ipv4_to_int_lem_example :
    let n = ipv4_to_int netmask in
    (n < 2 ^ 32)
    × (n / 16777216 ≡ number netmask-IsAddress.first)
    × (n / 65536 % 256 ≡ number netmask-IsAddress.second)
    × (n / 256 % 256 ≡ number netmask-IsAddress.third)
    × (n % 256 ≡ number netmask-IsAddress.fourth)
ipv4_to_int_lem_example = ipv4_to_int_lem netmask netmask-IsAddress

is_ipv4_in_subnet_prefix_example :
    (is_ipv4_in_subnet host home netmask ≡ true)
    ↔ (ipv4_to_int host / 2 ^ (32 - 24) ≡ ipv4_to_int home / 2 ^ (32 - 24))
is_ipv4_in_subnet_prefix_example =
    is_ipv4_in_subnet_prefix host home netmask 24 netmask-IsAddress (omega arith) netmask_number
