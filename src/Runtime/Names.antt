-- ===== src/Runtime/Names.antt =====
-- The device names that `parse_tun_name` of src/runtime.rs takes.
use mathlib.Core.Option.{some-injective}
use smoltcp_socks.Common.{
  ℕ, ◌≡◌, ◌≢◌, ◌⊎◌, refl, ap, subst, Bool, true, false, [], ◌∷◌, ◌++◌, Option, none, some, Bytes,
  codes, sym, ◌∙◌, drop, Result, ok, err, ok-injective, Bool-cases, Option-cases, inl, inr, arith,
}
use smoltcp_socks.Common.Decimal.{parse_uint}
use smoltcp_socks.Common.Text.{strip_prefix, strip_prefix-append, strip_prefix_sound}
use smoltcp_socks.Runtime.{u32_max, parse_tun_name, checked_name, utun_ok, unwrap_or, or_else}

-- No text behind this prefix is the specification.
abbrev pub Lacks : Bytes → Bytes → Type 0
Lacks prefix spec = (rest : Bytes) → spec ≢ prefix ++ rest

-- The name is what stands behind `tun://` if the specification begins with it, and otherwise behind
-- `utun://` if it begins with that, and otherwise the whole specification.
abbrev pub IsNamed : Bytes → Bytes → Type 0
IsNamed spec name =
    (spec ≡ codes "tun://" ++ name)
    ⊎ ((spec ≡ codes "utun://" ++ name)
        ⊎ (Lacks (codes "tun://") spec × Lacks (codes "utun://") spec × (spec ≡ name)))

-- `utun` with a number of 32 bits behind it
abbrev pub IsUtun : Bytes → Type 0
IsUtun name =
    (digits : Bytes) × (n : ℕ) × (name ≡ codes "utun" ++ digits)
    × (parse_uint u32_max digits ≡ some n)

-- What a name is on the platform: on Apple's, `utun` with a number.
abbrev pub FitsPlatform : Bool → Bytes → Type 0
FitsPlatform true name = IsUtun name
FitsPlatform false name = Unit

strip_prefix-none : (p s : Bytes) → strip_prefix p s ≡ none → Lacks p s
strip_prefix-none p s e rest whole =
    let k : ◌≡◌ {A = Option Bytes} none (some rest) =
      sym e ∙ ap (strip_prefix p) whole ∙ strip_prefix-append p rest in
    cc k

stripped-IsNamed :
    (spec : Bytes)
    → IsNamed spec (
        unwrap_or
          (or_else (strip_prefix (codes "tun://") spec) (strip_prefix (codes "utun://") spec))
          spec)
unfolding unwrap_or or_else
stripped-IsNamed spec = elim (Option-cases (strip_prefix (codes "tun://") spec)) [
  | inr (name, e) ↦
      rw (e, or_else, unwrap_or) (inl (strip_prefix_sound (codes "tun://") spec name e))
  | inl e ↦ elim (Option-cases (strip_prefix (codes "utun://") spec)) [
    | inr (name, f) ↦
        rw (e, f, or_else, unwrap_or) (inr (inl (strip_prefix_sound (codes "utun://") spec name f)))
    | inl f ↦
        rw (e, f, or_else, unwrap_or)
          (inr (
            inr (
              strip_prefix-none (codes "tun://") spec e,
              strip_prefix-none (codes "utun://") spec f,
              refl,
            )))
  ]
]

utun_ok-IsUtun : (name : Bytes) → utun_ok name ≡ true → IsUtun name
unfolding utun_ok
utun_ok-IsUtun name h = elim (Option-cases (strip_prefix (codes "utun") name)) [
  | inl e ↦ absurd (ground arith)
  | inr (digits, e) ↦
      let whole = strip_prefix_sound (codes "utun") name digits e in
      let tail = ap (drop 4) whole in
      elim (Option-cases (parse_uint u32_max digits)) [
        | inl f ↦ absurd (ground (arith, tail))
        | inr (n, f) ↦ (digits, n, whole, f)
      ]
]

checked :
    (apple : Bool) (s name : Bytes)
    → checked_name apple s ≡ ok (some name)
    → (s ≡ name) × (name ≢ []) × (apple ≡ true → utun_ok name ≡ true)
unfolding checked_name
checked apple [] name h = cc
checked false (c ∷ s) name h = let e = some-injective _ _ (ok-injective h) in (e, λ f. cc, λ f. cc)
checked true (c ∷ s) name h = elim (Bool-cases (utun_ok (c ∷ s))) [
  | inl u ↦
      let e : (c ∷ s) ≡ name = some-injective _ _ (ok-injective (rw (u, checked_name) at h)) in
      (e, λ f. cc, λ f. subst (λ x. utun_ok x ≡ true) e u)
  | inr u ↦
      let k : ◌≡◌ {A = Result (Option Bytes) (Unit {0})} (err tt) (ok (some name)) =
        rw (u, checked_name) at h in
      absurd (cc)
]

platform_fits :
    (apple : Bool) (name : Bytes) → (apple ≡ true → utun_ok name ≡ true) → FitsPlatform apple name
platform_fits true name h = utun_ok-IsUtun name (h refl)
platform_fits false name h = tt

-- A name that is taken from a specification is not empty, and is what stands behind `tun://` or
-- `utun://`, or the whole specification only if it begins with neither of them; on an Apple platform
-- it is `utun` with a 32-bit number.
pub parse_tun_name_sound :
    (apple : Bool) (spec name : Bytes)
    → parse_tun_name apple spec ≡ ok (some name)
    → IsNamed spec name × (name ≢ []) × FitsPlatform apple name
unfolding parse_tun_name
parse_tun_name_sound apple spec name h =
    let (e, filled, u) = checked apple _ name h in
    (subst (IsNamed spec) e (stripped-IsNamed spec), filled, platform_fits apple name u)
