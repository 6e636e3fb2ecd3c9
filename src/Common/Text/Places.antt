-- ===== src/Common/Text/Places.antt =====
-- Where a text is split: the first place of a separator, and the last one.
use smoltcp_socks.Common.{
  ℕ, suc, ◌≤◌, ◌≡◌, ◌≢◌, refl, ap, [], ◌∷◌, ◌++◌, Option, none, some, Bytes, length, ◌==◌, ==_iff,
  arith, Bool-cases, inl, inr,
}
use smoltcp_socks.Common.Text.{
  strip_prefix, split_here, split_once, split_last, rsplit_once, Lacks, strip_prefix-append,
  strip_prefix_sound,
}

-- The separator stands nowhere in the text.
abbrev pub Avoids : Bytes → Bytes → Type 0
Avoids sep s = (a b : Bytes) → s ≢ a ++ (sep ++ b)

-- The text is split at the first place of the separator.
pub record IsFirst (sep s a b : Bytes) : Type 0 where
  pub splits : s ≡ a ++ (sep ++ b)
  pub first : (c d : Bytes) → s ≡ c ++ (sep ++ d) → length a ≤ length c

-- The text is split at the last place of the separator.
pub record IsLast (sep : ℕ) (s a b : Bytes) : Type 0 where
  pub splits : s ≡ a ++ sep ∷ b
  pub last : Lacks sep b

abbrev pub SplitsOnce : Bytes → Bytes → Option (Bytes × Bytes) → Type 0
SplitsOnce sep s none = Avoids sep s
SplitsOnce sep s (some (a, b)) = IsFirst sep s a b

abbrev pub SplitsLast : ℕ → Bytes → Option (Bytes × Bytes) → Type 0
SplitsLast sep s none = Lacks sep s
SplitsLast sep s (some (a, b)) = IsLast sep s a b

strip_none : (sep s b : Bytes) → strip_prefix sep s ≡ none → s ≢ sep ++ b
strip_none sep s b h e = cc (strip_prefix-append sep b, ap (strip_prefix sep) e, h)

tail : {x y : ℕ} {s t : Bytes} → x ∷ s ≡ y ∷ t → s ≡ t
tail h = cc h

split_here_lem :
    (k : ℕ) (p : Bytes) (c : ℕ) (s : Bytes) (o : Option Bytes) (later : Option (Bytes × Bytes))
    → strip_prefix (k ∷ p) (c ∷ s) ≡ o
    → SplitsOnce (k ∷ p) s later
    → SplitsOnce (k ∷ p) (c ∷ s) (split_here c o later)
split_here_lem k p c s (some rest) later e h = record {
  splits = strip_prefix_sound (k ∷ p) (c ∷ s) rest e;
  first = λ a b f. omega arith;
}
split_here_lem k p c s none none e h = avoids
  where
    avoids : Avoids (k ∷ p) (c ∷ s)
    avoids [] b f = strip_none (k ∷ p) (c ∷ s) b e f
    avoids (d ∷ a) b f = h a b (tail f)
split_here_lem k p c s none (some (a, b)) e h = record {
  splits = ap (◌∷◌ c) h.splits;
  first = first;
}
  where
    first : (x y : Bytes) → c ∷ s ≡ x ++ ((k ∷ p) ++ y) → suc (length a) ≤ length x
    first [] y f = absurd (strip_none (k ∷ p) (c ∷ s) y e f)
    first (d ∷ x) y f = omega (arith, h.first x y (tail f))

pub split_once-SplitsOnce : (k : ℕ) (p s : Bytes) → SplitsOnce (k ∷ p) s (split_once (k ∷ p) s)
unfolding split_once
split_once-SplitsOnce k p [] = nowhere
  where
    nowhere : Avoids (k ∷ p) []
    nowhere [] b f = cc f
    nowhere (d ∷ a) b f = cc f
split_once-SplitsOnce k p (c ∷ s) =
    split_here_lem k p c s (strip_prefix (k ∷ p) (c ∷ s)) (split_once (k ∷ p) s) refl
      (split_once-SplitsOnce k p s)

split_last_lem :
    (sep c : ℕ) (s : Bytes) (later : Option (Bytes × Bytes))
    → SplitsLast sep s later
    → SplitsLast sep (c ∷ s) (split_last sep c s later)
split_last_lem sep c s (some (a, b)) h = record { splits = ap (◌∷◌ c) h.splits; last = h.last }
split_last_lem sep c s none h = elim (Bool-cases (c == sep)) [
  | inl e ↦ rw e (record { splits = ap (λ d. d ∷ s) ((==_iff c sep).0 e); last = h })
  | inr e ↦ rw e (ground arith, h)
]

pub rsplit_once-SplitsLast : (sep : ℕ) (s : Bytes) → SplitsLast sep s (rsplit_once sep s)
unfolding rsplit_once
rsplit_once-SplitsLast sep [] = tt
rsplit_once-SplitsLast sep (c ∷ s) =
    split_last_lem sep c s (rsplit_once sep s) (rsplit_once-SplitsLast sep s)
