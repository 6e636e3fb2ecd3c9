-- ===== src/Proxy/Sound.antt =====
-- What src/proxy.rs makes of an accepted URL.
use mathlib.Core.Option.{some-injective}
use smoltcp_socks.Common.{
  ℕ, ◌≤◌, ◌≡◌, ◌⊎◌, inl, inr, subst, [], ◌∷◌, Option, none, some, Bytes, codes, length, ok, ok_or,
  arith, ◌>>=◌, >>=-eq-ok, ok_or-eq-ok, ok-injective, Option-cases,
}
use smoltcp_socks.Common.Decimal.{decimal, parse_uint}
use smoltcp_socks.Common.Decimal.Print.{parse_uint-le, parse_uint-decimal}
use smoltcp_socks.Common.Text.{
  split_once, rsplit_once, strip_prefix, rsplit_once-append, to_ascii_lowercase, same_eq,
}
use smoltcp_socks.Proxy.RoundTrip.{digits_lack}
use smoltcp_socks.Proxy.{
  ProxyUrl, ProxyUrlError, parse, parse_host_port, parse_port, userinfo, user_and_password,
  non_empty, check_scheme, check_host, u16_max, unsupported_scheme, into_proxy,
}
use smoltcp_socks.Socks5.{Socks5Proxy, Credentials, server_addr}
use smoltcp_socks.Socks5

abbrev NonEmpty : Option Bytes → Type 0
NonEmpty none = Unit
NonEmpty (some s) = 1 ≤ length s

-- What every accepted URL is.
pub record IsAccepted (u : ProxyUrl) : Type 0 where
  pub known_scheme : (u.scheme ≡ codes "socks5") ⊎ (u.scheme ≡ codes "socks5h")
  pub host_some : 1 ≤ length u.host
  pub port_fits : u.port ≤ u16_max
  pub user_some : NonEmpty u.username
  pub password_some : NonEmpty u.password

check_scheme_sound :
    (s : Bytes) (v : Unit {0})
    → check_scheme s ≡ ok v
    → (s ≡ codes "socks5") ⊎ (s ≡ codes "socks5h")
unfolding check_scheme
check_scheme_sound s v h = ground (arith, same_eq s (codes "socks5"), same_eq s (codes "socks5h"))

check_host_sound : (s : Bytes) (v : Unit {0}) → check_host s ≡ ok v → 1 ≤ length s
unfolding check_host
check_host_sound [] v h = cc
check_host_sound (c ∷ s) v h = omega arith

parse_port-le : (s : Bytes) (n : ℕ) → parse_port s ≡ ok n → n ≤ u16_max
unfolding parse_port
parse_port-le s n h = parse_uint-le u16_max s n (ok_or-eq-ok _ _ n h)

-- Both forms of an address end in a port.
port_of_parts :
    (o : Option (Bytes × Bytes)) (e : ProxyUrlError) (a : Bytes × ℕ)
    → (ok_or o e >>= λ parts. (parse_port parts.1 >>= λ port. ok (parts.0, port))) ≡ ok a
    → a.1 ≤ u16_max
port_of_parts none e a h = cc
port_of_parts (some parts) e a h =
    let (port, p, q) = >>=-eq-ok (parse_port parts.1) _ h in
    let fits = parse_port-le parts.1 port p in ground (arith, fits, q)

parse_host_port-le : (s : Bytes) (a : Bytes × ℕ) → parse_host_port s ≡ ok a → a.1 ≤ u16_max
unfolding parse_host_port
parse_host_port-le s a h = elim (Option-cases (strip_prefix (codes "[") s)) [
  | inl e ↦ port_of_parts _ _ a (rw (e, parse_host_port) at h)
  | inr (stripped, e) ↦ port_of_parts _ _ a (rw (e, parse_host_port) at h)
]

non_empty-NonEmpty : (s : Bytes) → NonEmpty (non_empty s)
unfolding non_empty
non_empty-NonEmpty [] = tt
non_empty-NonEmpty (c ∷ s) = omega arith

userinfo-NonEmpty :
    (rest : Bytes) (o : Option (Bytes × Bytes))
    → NonEmpty (userinfo rest o).0.0 × NonEmpty (userinfo rest o).0.1
unfolding userinfo user_and_password
userinfo-NonEmpty rest none = (tt, tt)
userinfo-NonEmpty rest (some (u, h)) = (non_empty-NonEmpty _, non_empty-NonEmpty _)

-- Whatever text is accepted, the scheme is one of the two that are supported, the host is not empty,
-- the port is a 16-bit number, and a user name or a password that is present is not empty.
pub parse-IsAccepted : (raw : Bytes) (u : ProxyUrl) → parse raw ≡ ok u → IsAccepted u
unfolding parse
parse-IsAccepted raw u h =
    let (parts, e1, k1) =
      >>=-eq-ok (ok_or (split_once (codes "://") raw) (unsupported_scheme raw)) _ h in
    let scheme = to_ascii_lowercase parts.0 in
    let (v, e2, k2) = >>=-eq-ok (check_scheme scheme) _ k1 in
    let info = userinfo parts.1 (rsplit_once b'@' parts.1) in
    let (address, e3, k3) = >>=-eq-ok (parse_host_port info.1) _ k2 in
    let (w, e4, k4) = >>=-eq-ok (check_host address.0) _ k3 in
    let filled = userinfo-NonEmpty parts.1 (rsplit_once b'@' parts.1) in
    subst IsAccepted (ok-injective k4) (record {
      known_scheme = check_scheme_sound scheme v e2;
      host_some = check_host_sound address.0 w e4;
      port_fits = parse_host_port-le info.1 address e3;
      user_some = filled.0;
      password_some = filled.1;
    })

new_creds :
    (host : Bytes) (port : ℕ) (u p : Option Bytes) (c : Credentials)
    → NonEmpty u
    → NonEmpty p
    → (Socks5.new host port u p).creds ≡ some c
    → (1 ≤ length c.username) × (1 ≤ length c.password)
unfolding Socks5.new
new_creds host port none p c hu hp e = cc
new_creds host port (some u) none c hu hp e = cc
new_creds host port (some u) (some p) c hu hp e =
    let f = some-injective _ _ e in
    (
      subst (λ (d : Credentials). 1 ≤ length d.username) f hu,
      subst (λ (d : Credentials). 1 ≤ length d.password) f hp,
    )

new_addr :
    (host : Bytes) (port : ℕ) (u p : Option Bytes)
    → rsplit_once b':' (server_addr (Socks5.new host port u p)) ≡ some (host, decimal port)
unfolding Socks5.new server_addr
new_addr host port none p =
    rsplit_once-append b':' host (decimal port) (digits_lack b':' port (omega arith))
new_addr host port (some u) none =
    rsplit_once-append b':' host (decimal port) (digits_lack b':' port (omega arith))
new_addr host port (some u) (some p) =
    rsplit_once-append b':' host (decimal port) (digits_lack b':' port (omega arith))

-- The dialer made of an accepted URL never fails the handshake for an empty user name or password:
-- if it has credentials, neither is empty.
pub parsed_credentials :
    (raw : Bytes) (u : ProxyUrl) (c : Credentials)
    → parse raw ≡ ok u
    → (into_proxy u).creds ≡ some c
    → (1 ≤ length c.username) × (1 ≤ length c.password)
unfolding into_proxy
parsed_credentials raw u c h e =
    let a = parse-IsAccepted raw u h in
    new_creds u.host u.port u.username u.password c a.user_some a.password_some e

-- The dialer's server address, split at the last colon as a resolver does, is the URL's host and the
-- decimal text of its port, which reads back as the port: so also for an IPv6 host, which stands in
-- the address without brackets.
pub parsed_address :
    (raw : Bytes) (u : ProxyUrl)
    → parse raw ≡ ok u
    → (rsplit_once b':' (server_addr (into_proxy u)) ≡ some (u.host, decimal u.port))
      × (parse_uint u16_max (decimal u.port) ≡ some u.port)
unfolding into_proxy
parsed_address raw u h = (
  new_addr u.host u.port u.username u.password,
  parse_uint-decimal u16_max u.port (parse-IsAccepted raw u h).port_fits,
)
