-- ===== src/Socks5/Request.antt =====
-- The client's messages of src/socks5.rs, read back by the rules of RFC 1928 and RFC 1929.
use smoltcp_socks.Common.{
  ℕ, ◌+◌, ◌*◌, ◌/◌, ◌%◌, ◌<◌, ◌^◌, ◌≡◌, ap, [], ◌∷◌, ◌++◌, Option, none, some, Bytes, length, arith,
  append_assoc, ◌==◌, if◌then◌else◌, split_at, split_at-append, ◌&&◌,
}
use smoltcp_socks.Net.{IpAddr, v4, v6, SocketAddr, IsSocketAddr, IsIpAddr, to_be_bytes}
use smoltcp_socks.Socks5.{Credentials, write_request, auth_message, connect_message}
use smoltcp_socks.Socks5.Replies.{IsCredentials}

-- The port, high byte first.
abbrev read_port : IpAddr → Bytes → Option (SocketAddr × Bytes)
read_port ip [] = none
read_port ip (hi ∷ []) = none
read_port ip (hi ∷ lo ∷ rest) = some (record { ip = ip; port = hi * 256 + lo }, rest)

abbrev then_port : (Bytes → IpAddr) → Option (Bytes × Bytes) → Option (SocketAddr × Bytes)
then_port make none = none
then_port make (some (octets, rest)) = read_port (make octets) rest

-- DST.ADDR and DST.PORT behind the address type.
abbrev pub read_address : ℕ → Bytes → Option (SocketAddr × Bytes)
read_address atyp s =
    if atyp == 1
    then then_port v4 (split_at 4 s)
    else if atyp == 4
    then then_port v6 (split_at 16 s)
    else none

-- VER, CMD = CONNECT, RSV, ATYP, DST.ADDR, DST.PORT, as a server reads a request.
abbrev pub read_request : Bytes → Option (SocketAddr × Bytes)
read_request (ver ∷ cmd ∷ rsv ∷ atyp ∷ s) =
    if ver == 5 && cmd == 1 && rsv == 0 then read_address atyp s else none
read_request _ = none

abbrev then_password : Bytes → Option (Bytes × Bytes) → Option (Credentials × Bytes)
then_password u none = none
then_password u (some (p, rest)) = some (record { username = u; password = p }, rest)

abbrev read_password : Option (Bytes × Bytes) → Option (Credentials × Bytes)
read_password none = none
read_password (some (u, [])) = none
read_password (some (u, plen ∷ s)) = then_password u (split_at plen s)

-- VER, ULEN, UNAME, PLEN, PASSWD, as a server reads them.
abbrev pub read_auth : Bytes → Option (Credentials × Bytes)
read_auth (ver ∷ ulen ∷ s) = if ver == 1 then read_password (split_at ulen s) else none
read_auth _ = none

-- A server that reads the CONNECT request by RFC 1928 finds the target's address and port, for both
-- address families, and whatever the client sends next.
pub read_request-connect_message :
    (target : SocketAddr) (rest : Bytes)
    → IsSocketAddr target
    → read_request (connect_message target ++ rest) ≡ some (target, rest)
unfolding connect_message write_request
read_request-connect_message target rest h = by_family target.ip target.port h.0 h.1
  where
    be_bytes : (p : ℕ) → (p / 256) * 256 + p % 256 ≡ p
    be_bytes p = omega arith

    by_family :
        (ip : IpAddr) (p : ℕ)
        → IsIpAddr ip
        → p < 2 ^ 16
        → read_request (connect_message (record { ip = ip; port = p }) ++ rest)
          ≡ some (record { ip = ip; port = p }, rest)
    by_family (v4 octets) p (l, _) _ =
        rw
          (
            append_assoc octets (to_be_bytes p) rest,
            split_at-append octets (to_be_bytes p ++ rest) 4 l,
          )
          (ap (λ n. some (record { ip = v4 octets; port = n }, rest)) (be_bytes p))
    by_family (v6 octets) p (l, _) _ =
        rw
          (
            append_assoc octets (to_be_bytes p) rest,
            split_at-append octets (to_be_bytes p ++ rest) 16 l,
          )
          (ap (λ n. some (record { ip = v6 octets; port = n }, rest)) (be_bytes p))

-- A server that reads the credentials by RFC 1929 finds the user name and the password, byte for
-- byte, if both fit the protocol's length byte.
pub read_auth-auth_message :
    (c : Credentials) (rest : Bytes)
    → IsCredentials c
    → read_auth (auth_message c ++ rest) ≡ some (c, rest)
unfolding auth_message
read_auth-auth_message c rest h = rw (
  append_assoc c.username ((length c.password % 256) ∷ c.password) rest,
  split_at-append c.username ((length c.password % 256) ∷ (c.password ++ rest))
      (length c.username % 256) (omega arith),
  split_at-append c.password rest (length c.password % 256) (omega arith),
)
