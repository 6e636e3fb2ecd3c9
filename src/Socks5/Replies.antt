-- ===== src/Socks5/Replies.antt =====
-- The answers that the handshake of src/socks5.rs takes as a grant, as sequences of bytes. They have
-- the shape that RFC 1928 and RFC 1929 give such an answer, but are more than these allow: the client
-- looks neither at VER and RSV of the reply nor at VER of the status, and takes each of its two
-- methods, also the one that it has not offered.
use smoltcp_socks.Common.{ℕ, suc, ◌+◌, ◌≤◌, ◌≡◌, [], ◌∷◌, ◌++◌, Option, none, some, Bytes, length}
use smoltcp_socks.Net.{SocketAddr}
use smoltcp_socks.Socks5.{
  version, no_auth, user_pass, atyp_ipv4, atyp_ipv6, atyp_domain, Credentials, greeting_message,
  auth_message, connect_message,
}

-- BND.ADDR and BND.PORT: the address type with the bytes behind it.
pub data Bound : Type 0 where
  bound_v4 bound_v6 : Bytes → Bound
  bound_domain : ℕ → Bytes → Bound

abbrev pub IsBound : Bound → Type 0
IsBound (bound_v4 b) = length b ≡ 6
IsBound (bound_v6 b) = length b ≡ 18
IsBound (bound_domain len b) = length b ≡ len + 2

abbrev pub bound_bytes : Bound → Bytes
bound_bytes (bound_v4 b) = atyp_ipv4 ∷ b
bound_bytes (bound_v6 b) = atyp_ipv6 ∷ b
bound_bytes (bound_domain len b) = atyp_domain ∷ len ∷ b

-- `auth` is the version byte of the status message, if the server selected credentials. The three
-- bytes `auth`, `reply_version` and `reserved` can be any.
pub record ServerReply : Type 0 where
  pub auth : Option ℕ
  pub reply_version : ℕ
  pub reserved : ℕ
  pub bound : Bound

-- RFC 1929 gives each of the two one length byte, and neither is empty.
pub record IsCredentials (c : Credentials) : Type 0 where
  pub username_some : 1 ≤ length c.username
  pub username_fits : length c.username ≤ 255
  pub password_some : 1 ≤ length c.password
  pub password_fits : length c.password ≤ 255

-- The client can answer a request for credentials.
abbrev pub CanAuth : Option ℕ → Option Credentials → Type 0
CanAuth none user = Unit
CanAuth (some v) none = ⊥
CanAuth (some v) (some c) = IsCredentials c

pub record IsReply (user : Option Credentials) (r : ServerReply) : Type 0 where
  pub can_auth : CanAuth r.auth user
  pub is_bound : IsBound r.bound

abbrev pub selected : Option ℕ → ℕ
selected none = no_auth
selected (some v) = user_pass

abbrev pub auth_status : Option ℕ → Bytes
auth_status none = []
auth_status (some v) = v ∷ 0x00 ∷ []

-- The whole answer, in front of the proxied data: the methods, the status and the grant have to be
-- what the client tests them for.
abbrev pub server_bytes : ServerReply → Bytes
server_bytes r =
    (version ∷ selected r.auth ∷ [])
    ++ (auth_status r.auth ++ ((r.reply_version ∷ 0x00 ∷ r.reserved ∷ []) ++ bound_bytes r.bound))

abbrev pub auth_sent : Option ℕ → Option Credentials → Bytes
auth_sent none user = []
auth_sent (some v) none = []
auth_sent (some v) (some c) = auth_message c

-- Everything the client sends in return.
abbrev pub client_bytes : SocketAddr → Option Credentials → Option ℕ → Bytes
client_bytes target user auth =
    (greeting_message user ++ auth_sent auth user) ++ connect_message target

-- The writes of the client: the credentials take one if they are asked for, in front of `w` others.
abbrev pub auth_budget : Option ℕ → ℕ → ℕ
auth_budget none w = w
auth_budget (some v) w = suc w

abbrev pub budget : Option ℕ → ℕ → ℕ
budget auth w = suc (auth_budget auth (suc w))
