-- ===== src/Common/Lists.antt =====
-- Lists measured by native numbers, byte strings, and splitting a list at a position.
use Prim.Native.Nat.{ℕ, zero, suc, ◌+◌, ◌-◌, ◌<◌}
use Prim.Native.Char.{code}
use Prim.Native.String.{String}
use mathlib.Core.Path.{◌≡◌, refl, ap}
use mathlib.Core.List.{List, [], ◌∷◌, ◌++◌}
use mathlib.Core.Option.{Option, none, some}
use mathlib.Core.Bool.{Bool, true, false}
use native.Mathlib.Omega.{arith}

module _ {ℓ} {A : Type ℓ} where
  abbrev pub length : List A → ℕ
  length [] = 0
  length (x ∷ xs) = suc (length xs)

  abbrev pub get_or : List A → ℕ → A → A
  get_or [] i d = d
  get_or (x ∷ xs) zero d = x
  get_or (x ∷ xs) (suc i) d = get_or xs i d

  abbrev pub take : ℕ → List A → List A
  take zero xs = []
  take (suc n) [] = []
  take (suc n) (x ∷ xs) = x ∷ take n xs

  abbrev pub drop : ℕ → List A → List A
  drop zero xs = xs
  drop (suc n) [] = []
  drop (suc n) (x ∷ xs) = drop n xs

  abbrev pub replicate : ℕ → A → List A
  replicate zero a = []
  replicate (suc n) a = a ∷ replicate n a

  abbrev pub is_empty : List A → Bool
  is_empty [] = true
  is_empty (x ∷ xs) = false

  abbrev pub is_some : Option A → Bool
  is_some none = false
  is_some (some x) = true

  pub length-append : (xs ys : List A) → length (xs ++ ys) ≡ length xs + length ys
  length-append [] ys = omega arith
  length-append (x ∷ xs) ys = omega (arith, length-append xs ys)

  pub take-append-drop : (n : ℕ) (xs : List A) → take n xs ++ drop n xs ≡ xs
  take-append-drop zero xs = refl
  take-append-drop (suc n) [] = refl
  take-append-drop (suc n) (x ∷ xs) = ap (◌∷◌ x) (take-append-drop n xs)

  pub length-drop : (n : ℕ) (xs : List A) → length (drop n xs) ≡ length xs - n
  length-drop zero xs = omega arith
  length-drop (suc n) [] = omega arith
  length-drop (suc n) (x ∷ xs) = omega (arith, length-drop n xs)

  -- A short list by its elements.
  pub length-one : (d : A) (xs : List A) → length xs ≡ 1 → xs ≡ get_or xs 0 d ∷ []
  length-one d [] h = absurd (omega arith)
  length-one d (x ∷ []) h = refl
  length-one d (x ∷ y ∷ xs) h = absurd (omega arith)

  pub length-two : (d : A) (xs : List A) → length xs ≡ 2 → xs ≡ get_or xs 0 d ∷ get_or xs 1 d ∷ []
  length-two d [] h = absurd (omega arith)
  length-two d (x ∷ xs) h = ap (◌∷◌ x) (length-one d xs (omega arith))

  pub length-three :
      (d : A) (xs : List A)
      → length xs ≡ 3
      → xs ≡ get_or xs 0 d ∷ get_or xs 1 d ∷ get_or xs 2 d ∷ []
  length-three d [] h = absurd (omega arith)
  length-three d (x ∷ xs) h = ap (◌∷◌ x) (length-two d xs (omega arith))

  -- Put an element in front of a split.
  abbrev pub push_split : A → Option (List A × List A) → Option (List A × List A)
  push_split x none = none
  push_split x (some (a, b)) = some (x ∷ a, b)

  -- The first `n` elements and the rest, if there are as many.
  unfoldable pub split_at : ℕ → List A → Option (List A × List A)
  split_at zero xs = some ([], xs)
  split_at (suc n) [] = none
  split_at (suc n) (x ∷ xs) = push_split x (split_at n xs)

  pub split_at-append :
      (a : List A) (b : List A) (n : ℕ) → length a ≡ n → split_at n (a ++ b) ≡ some (a, b)
  unfolding split_at
  split_at-append [] b zero e = refl
  split_at-append [] b (suc n) e = absurd (omega arith)
  split_at-append (x ∷ a) b zero e = absurd (omega arith)
  split_at-append (x ∷ a) b (suc n) e = ap (push_split x) (split_at-append a b n (omega arith))

  push_split-eq-some :
      (x : A) (o : Option (List A × List A)) (a b : List A)
      → push_split x o ≡ some (a, b)
      → (c : List A) × (o ≡ some (c, b)) × (a ≡ x ∷ c)
  push_split-eq-some x none a b e = cc
  push_split-eq-some x (some (c, d)) a b e = (c, ground arith, ground arith)

  pub split_at_sound :
      (n : ℕ) (xs a b : List A) → split_at n xs ≡ some (a, b) → (xs ≡ a ++ b) × (length a ≡ n)
  unfolding split_at
  split_at_sound zero xs a b e = ground arith
  split_at_sound (suc n) [] a b e = cc
  split_at_sound (suc n) (x ∷ xs) a b e =
      let (c, p, q) = push_split-eq-some x (split_at n xs) a b e in
      ground (arith, q, split_at_sound n xs c b p)

module _ {ℓ κ} {A : Type ℓ} (P : A → Type κ) where
  abbrev pub All : List A → Type κ
  All [] = Unit
  All (x ∷ xs) = P x × All xs

  pub All-append : (xs ys : List A) → All xs → All ys → All (xs ++ ys)
  All-append [] ys hx hy = hy
  All-append (x ∷ xs) ys hx hy = (hx.0, All-append xs ys hx.1 hy)

abbrev pub Bytes : Type 0
Bytes = List ℕ

abbrev pub IsByte : ℕ → Type 0
IsByte b = b < 256

-- The code points of a literal; these are its bytes, since every literal of the program is ASCII.
abbrev pub codes : String → Bytes
codes String.[] = []
codes (String.◌∷◌ c s) = code c ∷ codes s
