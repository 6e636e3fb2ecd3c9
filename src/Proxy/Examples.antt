-- ===== src/Proxy/Examples.antt =====
-- Tests of src/proxy.rs, and its theorems at concrete URLs.
use smoltcp_socks.Common.{◌≡◌, ◌≤◌, refl, inl, true, some, Bytes, codes, length, ok, err, arith}
use smoltcp_socks.Common.Decimal.{decimal, parse_uint}
use smoltcp_socks.Common.Text.{rsplit_once, split_once, same, to_ascii_lowercase}
use smoltcp_socks.Proxy.{ProxyUrl, parse, into_proxy, u16_max, unsupported_scheme, missing_host}
use smoltcp_socks.Proxy.RoundTrip.{url_text, IsUrl, parse-url_text}
use smoltcp_socks.Proxy.Sound.{parsed_credentials, parsed_address}
use smoltcp_socks.Proxy.Grammar.{Reads, parse-Reads}
use smoltcp_socks.Socks5
use smoltcp_socks.Socks5.{Credentials, Socks5Proxy, server_addr}

abbrev sample : ProxyUrl
sample = record {
  scheme = codes "socks5";
  host = codes "::1";
  port = 1080;
  username = some (codes "al");
  password = some (codes "p:w@x");
}

sample_text : url_text true sample ≡ codes "socks5://al:p:w@x@[::1]:1080"
unfolding decimal
sample_text = refl

sample-IsUrl : IsUrl true sample
sample-IsUrl = record {
  known_scheme = inl refl;
  host_fits = omega arith;
  host_no_at = omega arith;
  port_fits = omega arith;
  user_fits = ((λ e. cc), omega arith);
  password_fits = λ e. cc;
}

parse-url_text_example : parse (codes "socks5://al:p:w@x@[::1]:1080") ≡ ok sample
unfolding decimal
parse-url_text_example = parse-url_text true sample sample-IsUrl

abbrev raw : Bytes
raw = codes "SOCKS5://al:pw@h:7"

abbrev parsed : ProxyUrl
parsed = record {
  scheme = codes "socks5";
  host = codes "h";
  port = 7;
  username = some (codes "al");
  password = some (codes "pw");
}

parse_runs : parse raw ≡ ok parsed
unfolding parse split_once same to_ascii_lowercase rsplit_once parse_uint
parse_runs = refl

parse_refuses : parse (codes "http://h:7") ≡ err (unsupported_scheme (codes "http"))
unfolding parse split_once same to_ascii_lowercase rsplit_once parse_uint
parse_refuses = refl

parse_needs_host : parse (codes "socks5://:7") ≡ err missing_host
unfolding parse split_once same to_ascii_lowercase rsplit_once parse_uint
parse_needs_host = refl

-- The host is missing behind an empty user name.
parse-Reads_example : Reads (codes "socks5://:p@:7") (parse (codes "socks5://:p@:7"))
parse-Reads_example = parse-Reads (codes "socks5://:p@:7")

abbrev credentials : Credentials
credentials = record { username = codes "al"; password = codes "pw" }

parsed_credentials_example : (1 ≤ length credentials.username) × (1 ≤ length credentials.password)
unfolding into_proxy Socks5.new
parsed_credentials_example = parsed_credentials raw parsed credentials parse_runs refl

parsed_address_example :
    (rsplit_once b':' (server_addr (into_proxy parsed)) ≡ some (codes "h", decimal 7))
    × (parse_uint u16_max (decimal 7) ≡ some 7)
parsed_address_example = parsed_address raw parsed parse_runs
