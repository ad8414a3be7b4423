-- ===== src/Policy/Acl.antt =====
-- core/policy/acl.cpp and acl.h: networks and access control. `is_v4_mapped` is the system's
-- IN6_IS_ADDR_V4MAPPED. Of a socket address, the family and the address bytes are modelled.
pub mod Nesting
pub mod Numbers
pub mod Prefixes
use dnsentinal.Common.{
  ℕ, zero, suc, ◌+◌, ◌-◌, ◌*◌, ◌/◌, ◌^◌, min, Bool, true, false, ◌&&◌, List, [], ◌∷◌, ◌++◌, Option,
  none, some, ◌==◌, if◌then◌else◌, any, replicate, drop,
}
use dnsentinal.Types.{Bytes, bytes_eq}

pub data Family : Type 0 where
  inet : Family
  inet6 : Family

abbrev pub family_eq : Family → Family → Bool
family_eq inet inet = true
family_eq inet inet6 = false
family_eq inet6 inet = false
family_eq inet6 inet6 = true

-- `sockaddr_storage`: four bytes, sixteen bytes, or another family.
pub data SocketAddress : Type 0 where
  v4 : Bytes → SocketAddress
  v6 : Bytes → SocketAddress
  other : SocketAddress

pub record IpAddress : Type 0 where
  pub family : Family
  pub bytes : Bytes

-- IPv4 uses the first 4 of the 16 bytes.
abbrev pub of_v4 : Bytes → IpAddress
of_v4 addr = record { family = inet; bytes = addr ++ replicate 12 0 }

unfoldable pub ip_address : (Bytes → Bool) → SocketAddress → Option IpAddress
ip_address is_v4_mapped (v4 addr) = some (of_v4 addr)
ip_address is_v4_mapped (v6 addr) =
    if is_v4_mapped addr
    then some (of_v4 (drop 12 addr))
    else some (record { family = inet6; bytes = addr })
ip_address is_v4_mapped other = none

abbrev pub address_bytes : Family → ℕ
address_bytes inet = 4
address_bytes inet6 = 16

-- `b & (0xFF00 >> keep)` of a byte keeps its `keep` high bits.
unfoldable pub keep_high : ℕ → ℕ → ℕ
keep_high keep b = b / 2 ^ (8 - keep) * 2 ^ (8 - keep)

-- Byte i keeps `prefix - 8 * i` bits, between 0 and 8.
unfoldable pub mask : ℕ → ℕ → Bytes → Bytes
mask zero prefix bytes = bytes
mask (suc length) prefix [] = []
mask (suc length) prefix (b ∷ bytes) = keep_high (min prefix 8) b ∷ mask length (prefix - 8) bytes

unfoldable pub network : ℕ → IpAddress → IpAddress
network prefix ip = record ip { bytes = mask (address_bytes ip.family) prefix ip.bytes }

pub record Subnet : Type 0 where
  pub family : Family
  pub network : Bytes
  pub prefix : ℕ

unfoldable pub contains_ip : Subnet → Option IpAddress → Bool
unfolding network
contains_ip subnet none = false
contains_ip subnet (some ip) =
    family_eq ip.family subnet.family && bytes_eq (network subnet.prefix ip).bytes subnet.network

unfoldable pub contains : (Bytes → Bool) → Subnet → SocketAddress → Bool
unfolding contains_ip ip_address
contains is_v4_mapped subnet client = contains_ip subnet (ip_address is_v4_mapped client)

unfoldable pub allows : (Bytes → Bool) → List Subnet → SocketAddress → Bool
unfolding contains
allows is_v4_mapped allow client = any (λ subnet. contains is_v4_mapped subnet client) allow
