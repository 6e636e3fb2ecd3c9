-- ===== src/Proxy/Grammar.antt =====
-- The proxy URLs of src/proxy.rs by their text: what each text is read as, or why it is refused.
use smoltcp_socks.Common.{
  ℕ, ◌≡◌, ◌≢◌, ◌⊎◌, inl, inr, refl, ap, ◌∙◌, false, [], ◌∷◌, Option, none, some, Bytes, codes,
  Result, ok, err, ok_or, ◌>>=◌, Option-cases, Bool-cases,
}
use smoltcp_socks.Common.Decimal.{parse_uint}
use smoltcp_socks.Common.Text.{
  strip_prefix, split_once, rsplit_once, to_ascii_lowercase, same, same_eq, same_refl,
  strip_prefix_sound, strip_prefix-append, Lacks,
}
use smoltcp_socks.Common.Text.Places.{
  Avoids, IsFirst, IsLast, SplitsOnce, SplitsLast, split_once-SplitsOnce, rsplit_once-SplitsLast,
}
use smoltcp_socks.Proxy.{
  ProxyUrl, ProxyUrlError, unsupported_scheme, missing_host, bad_url, u16_max, parse_port,
  parse_host_port, non_empty, or_whole, user_and_password, userinfo, check_scheme, check_host,
  parse,
}

-- `[host]:port`, or `host:port` with the last colon; the port is read as a 16-bit number.
pub data Addressed (s : Bytes) (r : Result (Bytes × ℕ) ProxyUrlError) : Type 0 where
  literal :
      (t host port : Bytes) (n : ℕ)
      → s ≡ b'[' ∷ t
      → IsFirst (codes "]:") t host port
      → parse_uint u16_max port ≡ some n
      → r ≡ ok (host, n)
      → Addressed s r
  literal_port :
      (t host port : Bytes)
      → s ≡ b'[' ∷ t
      → IsFirst (codes "]:") t host port
      → parse_uint u16_max port ≡ none
      → r ≡ err (bad_url "invalid port")
      → Addressed s r
  literal_open :
      (t : Bytes)
      → s ≡ b'[' ∷ t
      → Avoids (codes "]:") t
      → r ≡ err (bad_url "malformed ipv6")
      → Addressed s r
  plain :
      (host port : Bytes) (n : ℕ)
      → ((t : Bytes) → s ≢ b'[' ∷ t)
      → IsLast b':' s host port
      → parse_uint u16_max port ≡ some n
      → r ≡ ok (host, n)
      → Addressed s r
  plain_port :
      (host port : Bytes)
      → ((t : Bytes) → s ≢ b'[' ∷ t)
      → IsLast b':' s host port
      → parse_uint u16_max port ≡ none
      → r ≡ err (bad_url "invalid port")
      → Addressed s r
  plain_open :
      ((t : Bytes) → s ≢ b'[' ∷ t) → Lacks b':' s → r ≡ err (bad_url "missing port") → Addressed s r

-- An empty text is no user name, and no password.
abbrev pub Shows : Option Bytes → Bytes → Type 0
Shows none s = s ≡ []
Shows (some x) s = (x ≡ s) × (s ≢ [])

-- `user:password` with the first colon, or `user`.
pub data Credited (s : Bytes) (u p : Option Bytes) : Type 0 where
  both : (a b : Bytes) → IsFirst (codes ":") s a b → Shows u a → Shows p b → Credited s u p
  user_only : Avoids (codes ":") s → Shows u s → Shows p [] → Credited s u p

-- The user information stands in front of the last `@`.
pub data Login (s : Bytes) (u p : Option Bytes) (address : Bytes) : Type 0 where
  with_login : (a : Bytes) → IsLast b'@' s a address → Credited a u p → Login s u p address
  without : Lacks b'@' s → u ≡ none → p ≡ none → address ≡ s → Login s u p address

abbrev pub Known : Bytes → Type 0
Known scheme = (scheme ≡ codes "socks5") ⊎ (scheme ≡ codes "socks5h")

pub data Reads (raw : Bytes) (r : Result ProxyUrl ProxyUrlError) : Type 0 where
  no_scheme : Avoids (codes "://") raw → r ≡ err (unsupported_scheme raw) → Reads raw r
  other_scheme :
      (a rest : Bytes)
      → IsFirst (codes "://") raw a rest
      → ¬ Known (to_ascii_lowercase a)
      → r ≡ err (unsupported_scheme (to_ascii_lowercase a))
      → Reads raw r
  bad_address :
      (a rest address : Bytes) (u p : Option Bytes) (e : ProxyUrlError)
      → IsFirst (codes "://") raw a rest
      → Known (to_ascii_lowercase a)
      → Login rest u p address
      → Addressed address (err e)
      → r ≡ err e
      → Reads raw r
  no_host :
      (a rest address : Bytes) (u p : Option Bytes) (n : ℕ)
      → IsFirst (codes "://") raw a rest
      → Known (to_ascii_lowercase a)
      → Login rest u p address
      → Addressed address (ok ([], n))
      → r ≡ err missing_host
      → Reads raw r
  accepted :
      (a rest address : Bytes) (u p : Option Bytes) (host : Bytes) (n : ℕ)
      → IsFirst (codes "://") raw a rest
      → Known (to_ascii_lowercase a)
      → Login rest u p address
      → Addressed address (ok (host, n))
      → host ≢ []
      → r
        ≡ ok (record {
          scheme = to_ascii_lowercase a;
          host = host;
          port = n;
          username = u;
          password = p;
        })
      → Reads raw r

-- Both forms of an address, by what `parse_uint` makes of the port.
port_cases :
    (port : Bytes)
    → ((n : ℕ) × (parse_uint u16_max port ≡ some n) × (parse_port port ≡ ok n))
      ⊎ ((parse_uint u16_max port ≡ none) × (parse_port port ≡ err (bad_url "invalid port")))
unfolding parse_port
port_cases port = elim (Option-cases (parse_uint u16_max port)) [
  | inl e ↦ inr (e, rw e refl)
  | inr (n, e) ↦ inl (n, e, rw e refl)
]

literal_lem :
    (s t : Bytes) (o : Option (Bytes × Bytes))
    → s ≡ b'[' ∷ t
    → SplitsOnce (codes "]:") t o
    → Addressed s (
        ok_or o (bad_url "malformed ipv6") >>= λ parts.
        (parse_port parts.1 >>= λ port. ok (parts.0, port)))
literal_lem s t none e h = literal_open t e h refl
literal_lem s t (some (a, b)) e h = elim (port_cases b) [
  | inl (n, f, g) ↦ literal t a b n e h f (rw g refl)
  | inr (f, g) ↦ literal_port t a b e h f (rw g refl)
]

plain_lem :
    (s : Bytes) (o : Option (Bytes × Bytes))
    → ((t : Bytes) → s ≢ b'[' ∷ t)
    → SplitsLast b':' s o
    → Addressed s (
        ok_or o (bad_url "missing port") >>= λ parts.
        (parse_port parts.1 >>= λ port. ok (parts.0, port)))
plain_lem s none e h = plain_open e h refl
plain_lem s (some (a, b)) e h = elim (port_cases b) [
  | inl (n, f, g) ↦ plain a b n e h f (rw g refl)
  | inr (f, g) ↦ plain_port a b e h f (rw g refl)
]

parse_host_port-Addressed : (s : Bytes) → Addressed s (parse_host_port s)
unfolding parse_host_port strip_prefix
parse_host_port-Addressed s = elim (Option-cases (strip_prefix (codes "[") s)) [
  | inl e ↦ rw e (
      plain_lem s (rsplit_once b':' s)
        (λ t f. cc (strip_prefix-append (codes "[") t, ap (strip_prefix (codes "[")) f, e))
        (rsplit_once-SplitsLast b':' s))
  | inr (t, e) ↦ rw e (
      literal_lem s t (split_once (codes "]:") t) (strip_prefix_sound (codes "[") s t e)
        (split_once-SplitsOnce b']' (b':' ∷ []) t))
]

non_empty-Shows : (s : Bytes) → Shows (non_empty s) s
unfolding non_empty
non_empty-Shows [] = refl
non_empty-Shows (c ∷ s) = (refl, λ e. cc)

user_and_password-Credited :
    (s : Bytes) → Credited s (user_and_password s).0 (user_and_password s).1
unfolding user_and_password or_whole
user_and_password-Credited s = go (split_once (codes ":") s) (split_once-SplitsOnce b':' [] s)
  where
    go :
        (o : Option (Bytes × Bytes))
        → SplitsOnce (codes ":") s o
        → Credited s (non_empty (or_whole s o).0) (non_empty (or_whole s o).1)
    go none h = user_only h (non_empty-Shows s) (non_empty-Shows [])
    go (some (a, b)) h = both a b h (non_empty-Shows a) (non_empty-Shows b)

userinfo-Login :
    (s : Bytes) (o : Option (Bytes × Bytes))
    → SplitsLast b'@' s o
    → Login s (userinfo s o).0.0 (userinfo s o).0.1 (userinfo s o).1
unfolding userinfo
userinfo-Login s none h = without h refl refl refl
userinfo-Login s (some (a, b)) h = with_login a h (user_and_password-Credited a)

check_scheme_cases :
    (s : Bytes)
    → (Known s × (check_scheme s ≡ ok tt))
      ⊎ (¬ Known s × (check_scheme s ≡ err (unsupported_scheme s)))
unfolding check_scheme
check_scheme_cases s = elim (Bool-cases (same s (codes "socks5"))) [
  | inl e ↦ inl (inl (same_eq s (codes "socks5") e), rw e refl)
  | inr e ↦ elim (Bool-cases (same s (codes "socks5h"))) [
    | inl f ↦ inl (inr (same_eq s (codes "socks5h") f), rw (e, f) refl)
    | inr f ↦ inr (unknown e f, rw (e, f) refl)
  ]
]
  where
    unknown : same s (codes "socks5") ≡ false → same s (codes "socks5h") ≡ false → ¬ Known s
    unknown e f (inl q) = cc (ap (λ x. same x (codes "socks5")) q ∙ same_refl (codes "socks5"), e)
    unknown e f (inr q) = cc (ap (λ x. same x (codes "socks5h")) q ∙ same_refl (codes "socks5h"), f)

address_lem :
    (raw a rest address : Bytes) (u p : Option Bytes) (r : Result (Bytes × ℕ) ProxyUrlError)
    → IsFirst (codes "://") raw a rest
    → Known (to_ascii_lowercase a)
    → Login rest u p address
    → Addressed address r
    → Reads raw (
        r >>= λ parts.
        (check_host parts.0 >>= λ _. ok (record {
          scheme = to_ascii_lowercase a;
          host = parts.0;
          port = parts.1;
          username = u;
          password = p;
        })))
unfolding check_host
address_lem raw a rest address u p (err e) h k l d = bad_address a rest address u p e h k l d refl
address_lem raw a rest address u p (ok ([], n)) h k l d = no_host a rest address u p n h k l d refl
address_lem raw a rest address u p (ok (c ∷ s, n)) h k l d =
    accepted a rest address u p (c ∷ s) n h k l d (λ e. cc e) refl

-- Every text is read by the grammar, or refused for the reason that the grammar gives.
pub parse-Reads : (raw : Bytes) → Reads raw (parse raw)
unfolding parse
parse-Reads raw =
    go (split_once (codes "://") raw) refl (split_once-SplitsOnce b':' (b'/' ∷ b'/' ∷ []) raw)
  where
    go :
        (o : Option (Bytes × Bytes))
        → split_once (codes "://") raw ≡ o
        → SplitsOnce (codes "://") raw o
        → Reads raw (parse raw)
    go none e h = rw e (no_scheme h refl)
    go (some (a, rest)) e h = elim (check_scheme_cases (to_ascii_lowercase a)) [
      | inl (k, f) ↦
          let i = userinfo rest (rsplit_once b'@' rest) in
          rw (e, f)
            (address_lem raw a rest i.1 i.0.0 i.0.1 (parse_host_port i.1) h k
              (userinfo-Login rest (rsplit_once b'@' rest) (rsplit_once-SplitsLast b'@' rest))
              (parse_host_port-Addressed i.1))
      | inr (k, f) ↦ rw (e, f) (other_scheme a rest h k refl)
    ]
