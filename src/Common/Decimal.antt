-- ===== src/Common/Decimal.antt =====
-- Decimal text: the `Display` of an unsigned integer and `str::parse` into an unsigned integer of a
-- given width, as Rust's standard library documents them.
pub mod Print
use smoltcp_socks.Common.{
  ℕ, zero, suc, ◌+◌, ◌-◌, ◌*◌, ◌/◌, ◌%◌, ◌≡◌, refl, ◌||◌, [], ◌∷◌, Option, none, some, Bytes, ltb,
  ◌==◌, if◌then◌else◌, codes,
}

-- The digits of `n` in front of `out`; a number has fewer digits than `suc n` rounds.
digits : ℕ → ℕ → Bytes → Bytes
digits zero n out = out
digits (suc fuel) n out =
    let rest = digits fuel (n / 10) ((b'0' + n % 10) ∷ out) in
    if ltb n 10 then (b'0' + n) ∷ out else rest

-- `format!("{}", n)`
unfoldable pub decimal : ℕ → Bytes
unfolding digits
decimal n = digits (suc n) n []

-- The digit loop of `from_str`: `checked_mul` and `checked_add` refuse what exceeds `max`.
unfoldable pub scan : ℕ → Bytes → ℕ → Option ℕ
scan max [] n = some n
scan max (c ∷ s) n =
    let m = n * 10 + (c - b'0') in
    let rest = scan max s m in
    if ltb c b'0' || ltb b'9' c then none else if ltb max m then none else rest

-- `s.parse::<uN>()` with `max` = 2^N - 1: a leading `+` is allowed, no digits is an error.
unfoldable pub parse_uint : ℕ → Bytes → Option ℕ
unfolding scan
parse_uint max [] = none
parse_uint max (c ∷ []) = if c == b'+' then none else scan max (c ∷ []) 0
parse_uint max (c ∷ d ∷ s) = if c == b'+' then scan max (d ∷ s) 0 else scan max (c ∷ d ∷ s) 0

decimal_example : decimal 1080 ≡ codes "1080"
unfolding decimal
decimal_example = refl

parse_uint_example : parse_uint 65535 (codes "65535") ≡ some 65535
unfolding parse_uint
parse_uint_example = refl

parse_uint_overflow : parse_uint 65535 (codes "65536") ≡ none
unfolding parse_uint
parse_uint_overflow = refl
