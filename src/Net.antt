-- ===== src/Net.antt =====
-- The address types of `std::net` that the program passes around: `IpAddr` by its octets and
-- `SocketAddr`.
use smoltcp_socks.Common.{ℕ, ◌≡◌, ◌<◌, ◌/◌, ◌%◌, ◌^◌, [], ◌∷◌, Bytes, IsByte, All, length}

-- `v4.octets()` has four bytes and `v6.octets()` sixteen: see `IsIpAddr`.
pub data IpAddr : Type 0 where
  v4 v6 : Bytes → IpAddr

pub record SocketAddr : Type 0 where
  pub ip : IpAddr
  pub port : ℕ

abbrev pub IsIpAddr : IpAddr → Type 0
IsIpAddr (v4 octets) = (length octets ≡ 4) × All IsByte octets
IsIpAddr (v6 octets) = (length octets ≡ 16) × All IsByte octets

abbrev pub IsSocketAddr : SocketAddr → Type 0
IsSocketAddr a = IsIpAddr a.ip × (a.port < 2 ^ 16)

-- `u16::to_be_bytes`
abbrev pub to_be_bytes : ℕ → Bytes
to_be_bytes p = (p / 256) ∷ (p % 256) ∷ []
