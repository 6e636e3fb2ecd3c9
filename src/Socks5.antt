-- ===== src/Socks5.antt =====
-- src/socks5.rs: the SOCKS5 client. Texts are the bytes of Rust's `String`s.
pub mod Replies
mod Complete
mod Sound
mod Request
mod Secrecy
mod Reference
mod Prefix
mod Connect
mod Examples
use smoltcp_socks.Common.{
  ℕ, is_empty, zero, suc, ◌+◌, ◌%◌, ◌≡◌, refl, Bool, true, false, not, ◌||◌, List, [], ◌∷◌, ◌++◌,
  Option, none, some, String, Bytes, codes, length, replicate, get_or, ltb, leb, ◌==◌,
  if◌then◌else◌, Result, ok, err,
}
use smoltcp_socks.Common.Decimal.{decimal}
use smoltcp_socks.Net.{IpAddr, v4, v6, SocketAddr, to_be_bytes}
use smoltcp_socks.Stream.{Stream, M, ◌>>=◌, ◌>>◌, bail, done, ensure, write_all, read_exact}

abbrev pub version : ℕ
version = 0x05

-- `mod method`
abbrev pub no_auth : ℕ
no_auth = 0x00

abbrev pub user_pass : ℕ
user_pass = 0x02

abbrev pub none_acceptable : ℕ
none_acceptable = 0xff

-- `mod cmd`
abbrev pub connect_cmd : ℕ
connect_cmd = 0x01

-- `mod atyp`
abbrev pub atyp_ipv4 : ℕ
atyp_ipv4 = 0x01

abbrev pub atyp_domain : ℕ
atyp_domain = 0x03

abbrev pub atyp_ipv6 : ℕ
atyp_ipv6 = 0x04

pub data BindAddr : Type 0 where
  ip : IpAddr → BindAddr
  domain : Bytes → BindAddr

from_ip : IpAddr → BindAddr
from_ip a = ip a

v4_unspecified : BindAddr
v4_unspecified = ip (v4 (0 ∷ 0 ∷ 0 ∷ 0 ∷ []))

v6_unspecified : BindAddr
v6_unspecified = ip (v6 (replicate 16 0))

write_addr : BindAddr → Bytes → Bytes
write_addr (ip (v4 octets)) w = (w ++ atyp_ipv4 ∷ []) ++ octets
write_addr (ip (v6 octets)) w = (w ++ atyp_ipv6 ∷ []) ++ octets
write_addr (domain d) w = ((w ++ atyp_domain ∷ []) ++ (length d % 256) ∷ []) ++ d

-- Appends DST.ADDR and DST.PORT to `w`.
pub write_request : BindAddr → Bytes → ℕ → Bytes
unfolding write_addr
write_request self w port = write_addr self w ++ to_be_bytes port

pub record Credentials : Type 0 where
  pub username : Bytes
  pub password : Bytes

pub record Socks5Proxy : Type 0 where
  pub host : Bytes
  pub port : ℕ
  pub creds : Option Credentials

pub data HandshakeError : Type 0 where
  write_failed read_failed : HandshakeError
  version_mismatched : ℕ → HandshakeError
  auth_required no_acceptable : HandshakeError
  unsupported_method : ℕ → HandshakeError
  connect_rejected : String → HandshakeError
  auth_empty auth_too_long auth_rejected : HandshakeError
  unsupported_atyp : ℕ → HandshakeError

pub reply_str : ℕ → String
reply_str rep =
    if rep == 0x00
    then "succeeded"
    else if rep == 0x01
    then "general SOCKS server failure"
    else if rep == 0x02
    then "connection not allowed by ruleset"
    else if rep == 0x03
    then "network unreachable"
    else if rep == 0x04
    then "host unreachable"
    else if rep == 0x05
    then "connection refused"
    else if rep == 0x06
    then "TTL expired"
    else if rep == 0x07
    then "command not supported"
    else if rep == 0x08
    then "address type not supported"
    else "unassigned"

-- The message of `auth_userpass`; `as u8` keeps the low byte of a length.
pub auth_message : Credentials → Bytes
auth_message c =
    0x01 ∷ (length c.username % 256) ∷ c.username ++ (length c.password % 256) ∷ c.password

pub auth_userpass : Credentials → M HandshakeError (Unit {0})
unfolding write_all read_exact
auth_userpass c = do
  ensure (not (is_empty c.username || is_empty c.password)) auth_empty
  ensure (not (ltb 255 (length c.username) || ltb 255 (length c.password))) auth_too_long
  write_all write_failed (auth_message c)
  status ← read_exact read_failed 2
  ensure (get_or status 1 0 == 0x00) auth_rejected

-- The number of address bytes that follow, by the address type.
bind_addr_len : ℕ → M HandshakeError ℕ
unfolding read_exact
bind_addr_len atyp =
    if atyp == atyp_ipv4
    then (λ s. (ok 4, s))
    else if atyp == atyp_ipv6
    then (λ s. (ok 16, s))
    else if atyp == atyp_domain
    then (do len ← read_exact read_failed 1; λ s. (ok (get_or len 0 0), s))
    else bail (unsupported_atyp atyp)

pub read_bind_addr : M HandshakeError (Unit {0})
unfolding bind_addr_len read_exact
read_bind_addr = do
  atyp ← read_exact read_failed 1
  skip ← bind_addr_len (get_or atyp 0 0)
  _ ← read_exact read_failed (skip + 2)
  done

-- `user.ok_or_else(…)?` and the sub-negotiation
auth_with : Option Credentials → M HandshakeError (Unit {0})
unfolding auth_userpass
auth_with none = bail auth_required
auth_with (some creds) = auth_userpass creds

-- `match greeting[1]`
authenticate : ℕ → Option Credentials → M HandshakeError (Unit {0})
unfolding auth_with
authenticate method user =
    if method == user_pass
    then auth_with user
    else if method == no_auth
    then done
    else if method == none_acceptable
    then bail no_acceptable
    else bail (unsupported_method method)

abbrev offered : Option Credentials → ℕ
offered (some _) = user_pass
offered none = no_auth

pub greeting_message : Option Credentials → Bytes
greeting_message user = version ∷ 0x01 ∷ offered user ∷ []

pub connect_message : SocketAddr → Bytes
unfolding write_request
connect_message target =
    write_request (ip target.ip) (version ∷ connect_cmd ∷ 0x00 ∷ []) target.port

pub client_handshake : SocketAddr → Option Credentials → M HandshakeError (Unit {0})
unfolding authenticate read_bind_addr reply_str write_all read_exact
client_handshake target user = do
  write_all write_failed (greeting_message user)
  greeting ← read_exact read_failed 2
  ensure (get_or greeting 0 0 == version) (version_mismatched (get_or greeting 0 0))
  authenticate (get_or greeting 1 0) user
  write_all write_failed (connect_message target)
  rep ← read_exact read_failed 3
  ensure (get_or rep 1 0 == 0x00) (connect_rejected (reply_str (get_or rep 1 0)))
  read_bind_addr

-- `Socks5Proxy::new`
unfoldable pub new : Bytes → ℕ → Option Bytes → Option Bytes → Socks5Proxy
new host port (some u) (some p) = record {
  host = host;
  port = port;
  creds = some (record { username = u; password = p });
}
new host port (some u) none = record { host = host; port = port; creds = none }
new host port none password = record { host = host; port = port; creds = none }

unfoldable pub server_addr : Socks5Proxy → Bytes
unfolding decimal
server_addr p = p.host ++ b':' ∷ decimal p.port

pub handshake : Socks5Proxy → SocketAddr → M HandshakeError (Unit {0})
unfolding client_handshake
handshake p target = client_handshake target p.creds

-- What `TcpStream::connect` gives: the stream, and `local_addr()` if the socket knows it.
pub record TcpConn : Type 0 where
  pub stream : Stream
  pub local_addr : Option SocketAddr

pub record Upstream : Type 0 where
  pub stream : Stream
  pub local_addr : SocketAddr

pub data ConnectError : Type 0 where
  connect_failed : Bytes → ConnectError
  handshake_failed : HandshakeError → ConnectError

local_or : Option SocketAddr → SocketAddr → SocketAddr
local_or (some a) target = a
local_or none target = record { ip = target.ip; port = 0 }

finish : Result (Unit {0}) HandshakeError × Stream → SocketAddr → Result Upstream ConnectError
finish (ok _, s) local = ok (record { stream = s; local_addr = local })
finish (err e, s) local = err (handshake_failed e)

-- `Proxy::connect`; `dial` stands for `TcpStream::connect`.
pub connect : (Bytes → Option TcpConn) → Socks5Proxy → SocketAddr → Result Upstream ConnectError
unfolding local_or finish handshake
connect dial p target = elim (dial (server_addr p)) [
  | none ↦ err (connect_failed (server_addr p))
  | some c ↦ finish (handshake p target c.stream) (local_or c.local_addr target)
]
