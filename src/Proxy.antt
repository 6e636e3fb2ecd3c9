-- ===== src/Proxy.antt =====
-- src/proxy.rs: the proxy URL and the dialer that it makes.
pub mod RoundTrip
pub mod Sound
mod Grammar
mod Examples
use smoltcp_socks.Common.{
  ℕ, ◌-◌, ◌^◌, ◌≡◌, Bool, true, false, not, ◌||◌, List, [], ◌∷◌, ◌++◌, Option, none, some, String,
  Bytes, codes, is_empty, if◌then◌else◌, Result, ok, err, ◌>>=◌, ok_or,
}
use smoltcp_socks.Common.Decimal.{parse_uint}
use smoltcp_socks.Common.Text.{strip_prefix, split_once, rsplit_once, to_ascii_lowercase, same}
use smoltcp_socks.Socks5.{Socks5Proxy}
use smoltcp_socks.Socks5

pub data ProxyUrlError : Type 0 where
  unsupported_scheme : Bytes → ProxyUrlError
  missing_host : ProxyUrlError
  bad_url : String → ProxyUrlError

pub record ProxyUrl : Type 0 where
  pub scheme : Bytes
  pub host : Bytes
  pub port : ℕ
  pub username : Option Bytes
  pub password : Option Bytes

abbrev pub u16_max : ℕ
u16_max = 2 ^ 16 - 1

parse_port : Bytes → Result ℕ ProxyUrlError
parse_port port = ok_or (parse_uint u16_max port) (bad_url "invalid port")

-- `host:port` or `[v6]:port`
parse_host_port : Bytes → Result (Bytes × ℕ) ProxyUrlError
unfolding parse_port
parse_host_port s = elim (strip_prefix (codes "[") s) [
  | some stripped ↦ do
    parts ← ok_or (split_once (codes "]:") stripped) (bad_url "malformed ipv6")
    port ← parse_port parts.1
    ok (parts.0, port)
  | none ↦ do
    parts ← ok_or (rsplit_once b':' s) (bad_url "missing port")
    port ← parse_port parts.1
    ok (parts.0, port)
]

-- `(!s.is_empty()).then(|| s.to_string())`
non_empty : Bytes → Option Bytes
non_empty [] = none
non_empty (c ∷ s) = some (c ∷ s)

or_whole : Bytes → Option (Bytes × Bytes) → Bytes × Bytes
or_whole ui none = (ui, [])
or_whole ui (some parts) = parts

user_and_password : Bytes → Option Bytes × Option Bytes
unfolding non_empty or_whole
user_and_password ui =
    let parts = or_whole ui (split_once (codes ":") ui) in (non_empty parts.0, non_empty parts.1)

-- The user information, if any, and what stands behind it.
userinfo : Bytes → Option (Bytes × Bytes) → (Option Bytes × Option Bytes) × Bytes
unfolding user_and_password
userinfo rest (some (u, h)) = (user_and_password u, h)
userinfo rest none = ((none, none), rest)

check_scheme : Bytes → Result (Unit {0}) ProxyUrlError
check_scheme scheme =
    if same scheme (codes "socks5") || same scheme (codes "socks5h")
    then ok tt
    else err (unsupported_scheme scheme)

check_host : Bytes → Result (Unit {0}) ProxyUrlError
check_host host = if is_empty host then err missing_host else ok tt

unfoldable pub parse : Bytes → Result ProxyUrl ProxyUrlError
unfolding check_scheme check_host userinfo parse_host_port
parse raw = do
  parts ← ok_or (split_once (codes "://") raw) (unsupported_scheme raw)
  let scheme = to_ascii_lowercase parts.0
  _ ← check_scheme scheme
  let info = userinfo parts.1 (rsplit_once b'@' parts.1)
  address ← parse_host_port info.1
  _ ← check_host address.0
  ok (record {
    scheme = scheme;
    host = address.0;
    port = address.1;
    username = info.0.0;
    password = info.0.1;
  })

unfoldable pub into_proxy : ProxyUrl → Socks5Proxy
into_proxy u = Socks5.new u.host u.port u.username u.password
