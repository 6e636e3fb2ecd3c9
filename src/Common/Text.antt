-- ===== src/Common/Text.antt =====
-- The methods of `str` that the program calls, on the bytes of a text, as Rust's standard library
-- documents them. A separator of one ASCII character is its byte.
pub mod Places
use smoltcp_socks.Common.{
  ℕ, ◌+◌, ◌≡◌, ◌≢◌, refl, Bool, true, false, ◌&&◌, [], ◌∷◌, ◌++◌, map, Option, none, some, Bytes,
  leb, ◌==◌, if◌then◌else◌, All, push_split, arith,
}

unfoldable pub strip_prefix : Bytes → Bytes → Option Bytes
strip_prefix [] s = some s
strip_prefix (c ∷ p) [] = none
strip_prefix (c ∷ p) (d ∷ s) = if c == d then strip_prefix p s else none

abbrev pub split_here : ℕ → Option Bytes → Option (Bytes × Bytes) → Option (Bytes × Bytes)
split_here c (some rest) later = some ([], rest)
split_here c none later = push_split c later

-- At the first place where the separator stands.
unfoldable pub split_once : Bytes → Bytes → Option (Bytes × Bytes)
unfolding strip_prefix
split_once sep [] = none
split_once sep (c ∷ s) = split_here c (strip_prefix sep (c ∷ s)) (split_once sep s)

abbrev pub split_last : ℕ → ℕ → Bytes → Option (Bytes × Bytes) → Option (Bytes × Bytes)
split_last sep c s (some (a, b)) = some (c ∷ a, b)
split_last sep c s none = if c == sep then some ([], s) else none

-- At the last place where the separator stands.
unfoldable pub rsplit_once : ℕ → Bytes → Option (Bytes × Bytes)
rsplit_once sep [] = none
rsplit_once sep (c ∷ s) = split_last sep c s (rsplit_once sep s)

unfoldable pub to_ascii_lowercase : Bytes → Bytes
to_ascii_lowercase = map λ c. if leb b'A' c && leb c b'Z' then c + 32 else c

-- Equality of texts.
unfoldable pub same : Bytes → Bytes → Bool
same [] [] = true
same [] (d ∷ t) = false
same (c ∷ s) [] = false
same (c ∷ s) (d ∷ t) = c == d && same s t

pub same_eq : (s t : Bytes) → same s t ≡ true → s ≡ t
unfolding same
same_eq [] [] h = refl
same_eq [] (d ∷ t) h = cc
same_eq (c ∷ s) [] h = cc
same_eq (c ∷ s) (d ∷ t) h = ground (arith, same_eq s t)

pub same_refl : (s : Bytes) → same s s ≡ true
unfolding same
same_refl [] = refl
same_refl (c ∷ s) = ground (arith, same_refl s)

abbrev pub Lacks : ℕ → Bytes → Type 0
Lacks b = All (λ c. c ≢ b)

pub rsplit_once-none : (sep : ℕ) (s : Bytes) → Lacks sep s → rsplit_once sep s ≡ none
unfolding rsplit_once
rsplit_once-none sep [] h = refl
rsplit_once-none sep (c ∷ s) h = ground (arith, rsplit_once-none sep s h.1)

-- The last separator is the one behind which there is no other.
pub rsplit_once-append :
    (sep : ℕ) (a b : Bytes) → Lacks sep b → rsplit_once sep (a ++ sep ∷ b) ≡ some (a, b)
unfolding rsplit_once
rsplit_once-append sep [] b h = ground (arith, rsplit_once-none sep b h)
rsplit_once-append sep (c ∷ a) b h = rw (rsplit_once-append sep a b h)

pub strip_prefix-append : (p s : Bytes) → strip_prefix p (p ++ s) ≡ some s
unfolding strip_prefix
strip_prefix-append [] s = refl
strip_prefix-append (c ∷ p) s = ground (arith, strip_prefix-append p s)

-- The first separator is the one whose first byte has not occurred before.
pub split_once-append :
    (c : ℕ) (p a b : Bytes) → Lacks c a → split_once (c ∷ p) (a ++ ((c ∷ p) ++ b)) ≡ some (a, b)
unfolding split_once
split_once-append c p [] b h = ground (arith, strip_prefix-append p b)
split_once-append c p (d ∷ a) b h = ground (arith, split_once-append c p a b h.1)

pub split_once-none : (c : ℕ) (p s : Bytes) → Lacks c s → split_once (c ∷ p) s ≡ none
unfolding split_once
split_once-none c p [] h = refl
split_once-none c p (d ∷ s) h = ground (arith, split_once-none c p s h.1)

pub strip_prefix_sound : (p s rest : Bytes) → strip_prefix p s ≡ some rest → s ≡ p ++ rest
unfolding strip_prefix
strip_prefix_sound [] s rest h = ground arith
strip_prefix_sound (c ∷ p) [] rest h = cc
strip_prefix_sound (c ∷ p) (d ∷ s) rest h = ground (arith, strip_prefix_sound p s rest)

abbrev prepend : ℕ → Option Bytes → Option Bytes
prepend c none = none
prepend c (some s) = some (c ∷ s)

-- The end of a text, as `strip_suffix` takes it off.
unfoldable pub strip_suffix : ℕ → Bytes → Option Bytes
strip_suffix sep [] = none
strip_suffix sep (c ∷ []) = if c == sep then some [] else none
strip_suffix sep (c ∷ d ∷ s) = prepend c (strip_suffix sep (d ∷ s))

pub strip_suffix-append : (sep : ℕ) (s : Bytes) → strip_suffix sep (s ++ sep ∷ []) ≡ some s
unfolding strip_suffix
strip_suffix-append sep [] = ground arith
strip_suffix-append sep (c ∷ []) = rw (strip_suffix-append sep [])
strip_suffix-append sep (c ∷ d ∷ s) = rw (strip_suffix-append sep (d ∷ s))

pub strip_suffix-none : (sep : ℕ) (s : Bytes) → Lacks sep s → strip_suffix sep s ≡ none
unfolding strip_suffix
strip_suffix-none sep [] h = refl
strip_suffix-none sep (c ∷ []) h = ground arith
strip_suffix-none sep (c ∷ d ∷ s) h = rw (strip_suffix-none sep (d ∷ s) h.1)
