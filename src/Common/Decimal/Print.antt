-- ===== src/Common/Decimal/Print.antt =====
-- A printed number is read back, and consists of digits.
use smoltcp_socks.Common.{
  ℕ, zero, suc, ◌+◌, ◌-◌, ◌*◌, ◌/◌, ◌%◌, ◌<◌, ◌≤◌, ◌≡◌, ◌≢◌, refl, ◌∙◌, [], ◌∷◌, some, Bytes, ltb,
  arith, All, Bool-cases, inl, inr,
}
use smoltcp_socks.Common.Decimal.{digits, decimal, scan, parse_uint}

abbrev pub IsDigit : ℕ → Type 0
IsDigit c = (b'0' ≤ c) × (c ≤ b'9')

scan-digits :
    (max fuel n : ℕ) (out : Bytes)
    → n < fuel
    → n ≤ max
    → scan max (digits fuel n out) 0 ≡ scan max out n
unfolding scan digits
scan-digits max zero n out h fits = absurd (omega arith)
scan-digits max (suc fuel) n out h fits = elim (Bool-cases (ltb n 10)) [
  | inl small ↦ rw small (ground arith)
  | inr large ↦ rw large (
      scan-digits max fuel (n / 10) ((b'0' + n % 10) ∷ out) (ground arith) (omega arith)
      ∙ ground arith)
]

digits-IsDigit :
    (fuel n : ℕ) (out : Bytes) → n < fuel → All IsDigit out → All IsDigit (digits fuel n out)
unfolding digits
digits-IsDigit zero n out h d = absurd (omega arith)
digits-IsDigit (suc fuel) n out h d = elim (Bool-cases (ltb n 10)) [
  | inl small ↦ rw small ((ground arith, ground arith), d)
  | inr large ↦ rw large (
      digits-IsDigit fuel (n / 10) ((b'0' + n % 10) ∷ out) (ground arith)
        ((omega arith, omega arith), d))
]

digits-ne-nil : (fuel n : ℕ) (out : Bytes) → out ≢ [] → digits fuel n out ≢ []
unfolding digits
digits-ne-nil zero n out h = h
digits-ne-nil (suc fuel) n out h = elim (Bool-cases (ltb n 10)) [
  | inl small ↦ rw small (λ e. cc)
  | inr large ↦ rw large (digits-ne-nil fuel (n / 10) ((b'0' + n % 10) ∷ out) (λ e. cc))
]

pub decimal-IsDigit : (n : ℕ) → All IsDigit (decimal n)
unfolding decimal
decimal-IsDigit n = digits-IsDigit (suc n) n [] (omega arith) tt

decimal-ne-nil : (n : ℕ) → decimal n ≢ []
unfolding decimal digits
decimal-ne-nil n = elim (Bool-cases (ltb n 10)) [
  | inl small ↦ rw small (λ e. cc)
  | inr large ↦ rw large (digits-ne-nil n (n / 10) ((b'0' + n % 10) ∷ []) (λ e. cc))
]

-- On digits the optional sign makes no difference.
parse_uint-scan : (max : ℕ) (s : Bytes) → s ≢ [] → All IsDigit s → parse_uint max s ≡ scan max s 0
unfolding parse_uint
parse_uint-scan max [] h d = absurd (h refl)
parse_uint-scan max (c ∷ []) h d = ground arith
parse_uint-scan max (c ∷ e ∷ s) h d = ground arith

pub parse_uint-decimal : (max n : ℕ) → n ≤ max → parse_uint max (decimal n) ≡ some n
unfolding decimal scan
parse_uint-decimal max n h =
    parse_uint-scan max (decimal n) (decimal-ne-nil n) (decimal-IsDigit n)
    ∙ scan-digits max (suc n) n [] (omega arith) h

scan-le : (max : ℕ) (s : Bytes) (n r : ℕ) → n ≤ max → scan max s n ≡ some r → r ≤ max
unfolding scan
scan-le max [] n r h e = ground arith
scan-le max (c ∷ s) n r h e = ground (arith, scan-le max s (n * 10 + (c - b'0')) r)

pub parse_uint-le : (max : ℕ) (s : Bytes) (r : ℕ) → parse_uint max s ≡ some r → r ≤ max
unfolding parse_uint
parse_uint-le max [] r e = cc
parse_uint-le max (c ∷ []) r e = ground (arith, scan-le max (c ∷ []) 0 r)
parse_uint-le max (c ∷ d ∷ s) r e =
    ground (arith, scan-le max (d ∷ s) 0 r, scan-le max (c ∷ d ∷ s) 0 r)
