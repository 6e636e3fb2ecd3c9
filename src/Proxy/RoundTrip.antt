-- ===== src/Proxy/RoundTrip.antt =====
-- A proxy URL that is written by the rules of src/proxy.rs is parsed back.
use smoltcp_socks.Common.{
  ℕ, ◌+◌, ◌≤◌, ◌≡◌, ◌≢◌, ◌⊎◌, inl, inr, refl, subst, ==_ne, sym, Bool, true, false, [], ◌∷◌, ◌++◌,
  Option, none, some, Bytes, codes, ok, arith, All, All-append,
}
use smoltcp_socks.Common.Decimal.{decimal}
use smoltcp_socks.Common.Decimal.Print.{IsDigit, decimal-IsDigit, parse_uint-decimal}
use smoltcp_socks.Common.Text.{
  Lacks, rsplit_once, strip_prefix, rsplit_once-append, rsplit_once-none, split_once-append,
  split_once-none, to_ascii_lowercase, same,
}
use smoltcp_socks.Proxy.{
  ProxyUrl, parse, parse_host_port, parse_port, userinfo, user_and_password, non_empty, or_whole,
  check_scheme, check_host, u16_max,
}

abbrev userinfo_text : Option Bytes → Option Bytes → Bytes → Bytes
userinfo_text none none rest = rest
userinfo_text none (some p) rest = (b':' ∷ p) ++ b'@' ∷ rest
userinfo_text (some u) none rest = u ++ b'@' ∷ rest
userinfo_text (some u) (some p) rest = (u ++ b':' ∷ p) ++ b'@' ∷ rest

-- `[host]:port` for an IPv6 literal, `host:port` for anything else.
abbrev host_port_text : Bool → Bytes → ℕ → Bytes
host_port_text true host port = b'[' ∷ (host ++ (codes "]:" ++ decimal port))
host_port_text false host port = host ++ b':' ∷ decimal port

-- The text of a proxy URL.
abbrev pub url_text : Bool → ProxyUrl → Bytes
url_text literal u =
    u.scheme
    ++ (codes "://" ++ userinfo_text u.username u.password (host_port_text literal u.host u.port))

abbrev HostFits : Bool → Bytes → Type 0
HostFits literal [] = ⊥
HostFits true (c ∷ s) = Lacks b']' (c ∷ s)
HostFits false (c ∷ s) = c ≢ b'['

abbrev UserFits : Option Bytes → Type 0
UserFits none = Unit
UserFits (some u) = (u ≢ []) × Lacks b':' u

abbrev PasswordFits : Option Bytes → Type 0
PasswordFits none = Unit
PasswordFits (some p) = p ≢ []

-- What the text of a URL can carry.
pub record IsUrl (literal : Bool) (u : ProxyUrl) : Type 0 where
  pub known_scheme : (u.scheme ≡ codes "socks5") ⊎ (u.scheme ≡ codes "socks5h")
  pub host_fits : HostFits literal u.host
  pub host_no_at : Lacks b'@' u.host
  pub port_fits : u.port ≤ u16_max
  pub user_fits : UserFits u.username
  pub password_fits : PasswordFits u.password

Lacks-digits : (b : ℕ) (s : Bytes) → b'9' + 1 ≤ b → All IsDigit s → Lacks b s
Lacks-digits b [] h d = tt
Lacks-digits b (c ∷ s) h d = (omega arith, Lacks-digits b s h d.1)

pub digits_lack : (b port : ℕ) → b'9' + 1 ≤ b → Lacks b (decimal port)
digits_lack b port h = Lacks-digits b (decimal port) h (decimal-IsDigit port)

parse_port-decimal : (port : ℕ) → port ≤ u16_max → parse_port (decimal port) ≡ ok port
unfolding parse_port
parse_port-decimal port h = rw (parse_uint-decimal u16_max port h)

parse_host_port_text :
    (literal : Bool) (host : Bytes) (port : ℕ)
    → HostFits literal host
    → port ≤ u16_max
    → parse_host_port (host_port_text literal host port) ≡ ok (host, port)
unfolding parse_host_port strip_prefix
parse_host_port_text literal [] port h p = absurd h
parse_host_port_text true (c ∷ s) port h p =
    rw (split_once-append b']' (codes ":") (c ∷ s) (decimal port) h)
      (rw (parse_port-decimal port p))
parse_host_port_text false (c ∷ s) port h p =
    rw (==_ne b'[' c (λ e. h (sym e)), parse_host_port)
      (rw (rsplit_once-append b':' (c ∷ s) (decimal port) (digits_lack b':' port (omega arith)))
        (rw (parse_port-decimal port p)))

Lacks-host_port_text :
    (literal : Bool) (host : Bytes) (port : ℕ)
    → Lacks b'@' host
    → Lacks b'@' (host_port_text literal host port)
Lacks-host_port_text true host port h = (
  omega arith,
  All-append _ host _ h
      (All-append _ (codes "]:") _ (omega arith) (digits_lack b'@' port (omega arith))),
)
Lacks-host_port_text false host port h =
    All-append _ host _ h (omega arith, digits_lack b'@' port (omega arith))

non_empty-some : (s : Bytes) → s ≢ [] → non_empty s ≡ some s
unfolding non_empty
non_empty-some [] h = absurd (h refl)
non_empty-some (c ∷ s) h = refl

userinfo_text_read :
    (u p : Option Bytes) (rest : Bytes)
    → UserFits u
    → PasswordFits p
    → Lacks b'@' rest
    → userinfo (userinfo_text u p rest) (rsplit_once b'@' (userinfo_text u p rest)) ≡ ((u, p), rest)
unfolding userinfo user_and_password or_whole
userinfo_text_read none none rest hu hp h = rw (rsplit_once-none b'@' rest h)
userinfo_text_read none (some p) rest hu hp h =
    rw (rsplit_once-append b'@' (b':' ∷ p) rest h)
      (rw (split_once-append b':' [] [] p tt) (rw (non_empty-some p hp) refl))
userinfo_text_read (some u) none rest hu hp h =
    rw (rsplit_once-append b'@' u rest h)
      (rw (split_once-none b':' [] u hu.1) (rw (non_empty-some u hu.0) refl))
userinfo_text_read (some u) (some p) rest hu hp h =
    rw (rsplit_once-append b'@' (u ++ b':' ∷ p) rest h) (
      rw (split_once-append b':' [] u p hu.1)
        (rw (non_empty-some u hu.0, non_empty-some p hp) refl))

check_host_text : (literal : Bool) (host : Bytes) → HostFits literal host → check_host host ≡ ok tt
unfolding check_host
check_host_text literal [] h = absurd h
check_host_text literal (c ∷ s) h = refl

-- A scheme of ours is in lower case, holds no colon, and is accepted.
record IsScheme (s : Bytes) : Type 0 where
  no_colon : Lacks b':' s
  lower : to_ascii_lowercase s ≡ s
  accepted : check_scheme s ≡ ok tt

IsScheme-known : (s : Bytes) → (s ≡ codes "socks5") ⊎ (s ≡ codes "socks5h") → IsScheme s
unfolding to_ascii_lowercase check_scheme same
IsScheme-known s (inl e) =
    subst IsScheme (sym e) (record { no_colon = omega arith; lower = refl; accepted = refl })
IsScheme-known s (inr e) =
    subst IsScheme (sym e) (record { no_colon = omega arith; lower = refl; accepted = refl })

-- Parsing undoes printing: for every URL whose parts can be written at all, with or without a user
-- name and a password, and with the host plain or in the brackets of an IPv6 literal.
pub parse-url_text :
    (literal : Bool) (u : ProxyUrl) → IsUrl literal u → parse (url_text literal u) ≡ ok u
unfolding parse
parse-url_text literal u h =
    let s = IsScheme-known u.scheme h.known_scheme in
    let address = host_port_text literal u.host u.port in
    let rest = userinfo_text u.username u.password address in
    rw (split_once-append b':' (codes "//") u.scheme rest s.no_colon) (
      rw (s.lower) (
        rw (s.accepted) (
          rw
            (userinfo_text_read u.username u.password address h.user_fits h.password_fits
              (Lacks-host_port_text literal u.host u.port h.host_no_at))
            (rw (parse_host_port_text literal u.host u.port h.host_fits h.port_fits)
              (rw (check_host_text literal u.host h.host_fits) refl)))))
