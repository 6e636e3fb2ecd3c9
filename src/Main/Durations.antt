-- ===== src/Main/Durations.antt =====
-- The durations of the command line of src/main.rs.
use smoltcp_socks.Common.{ℕ, ◌≤◌, ◌≡◌, ◌∷◌, ◌++◌, [], Bytes, some, arith, refl}
use smoltcp_socks.Common.Decimal.{decimal}
use smoltcp_socks.Common.Decimal.Print.{parse_uint-decimal}
use smoltcp_socks.Common.Text.{strip_suffix-append, strip_suffix-none}
use smoltcp_socks.Proxy.RoundTrip.{digits_lack}
use smoltcp_socks.Main.{from_str, seconds, u64_max}

-- A number of seconds that fits in 64 bits is read back from its decimal text, with an `s` behind it
-- and without, where `trim` takes nothing off either text.
pub from_str-decimal :
    (trim : Bytes → Bytes) (n : ℕ)
    → n ≤ u64_max
    → trim (decimal n) ≡ decimal n
    → trim (decimal n ++ b's' ∷ []) ≡ decimal n ++ b's' ∷ []
    → (from_str trim (decimal n) ≡ some n) × (from_str trim (decimal n ++ b's' ∷ []) ≡ some n)
unfolding from_str seconds
from_str-decimal trim n h plain suffixed = (
  rw plain (
      rw (strip_suffix-none b's' (decimal n) (digits_lack b's' n (omega arith)))
        (rw (parse_uint-decimal u64_max n h) refl)),
  rw suffixed
      (rw (strip_suffix-append b's' (decimal n)) (rw (parse_uint-decimal u64_max n h) refl)),
)
