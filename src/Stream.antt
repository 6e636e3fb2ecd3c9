-- ===== src/Stream.antt =====
-- The duplex byte stream that the handshake of src/socks5.rs runs over (its type parameter `S`),
-- with the two calls the code makes: `write_all` and `read_exact`. What the peer does enters as
-- data: the bytes that it will send before it closes, how many more writes go through, and how many
-- bytes of the write that fails have gone out by then.
use smoltcp_socks.Common.{
  ℕ, zero, suc, ◌≡◌, ◌++◌, Option, none, some, Bytes, split_at, Result, ok, err, Bool, true, false,
  take, refl, arith, [], append_assoc, append-nil, length, split_at-append, split_at_sound,
}

pub record Stream : Type 0 where
  pub incoming : Bytes
  pub sent : Bytes
  pub writable : ℕ
  pub torn : ℕ

-- A computation over the stream that can fail; the stream is kept on failure too.
abbrev pub M {ℓ κ} : Type ℓ → Type κ → Type (ℓ ⊔ κ)
M E A = Stream → Result A E × Stream

abbrev pub bind_result {ℓ κ μ} :
    {E : Type ℓ} {A : Type κ} {B : Type μ} → Result A E × Stream → (A → M E B) → Result B E × Stream
bind_result (ok a, s) f = f a s
bind_result (err e, s) f = (err e, s)

infixl 5 ◌>>=◌ ◌>>◌
abbrev pub ◌>>=◌ {ℓ κ μ} : {E : Type ℓ} {A : Type κ} {B : Type μ} → M E A → (A → M E B) → M E B
◌>>=◌ m f s = bind_result (m s) f

abbrev pub ◌>>◌ {ℓ κ} : {E : Type ℓ} {B : Type κ} → M E (Unit {0}) → M E B → M E B
m >> k = m >>= λ _. k

abbrev pub bail {ℓ κ} : {E : Type ℓ} {A : Type κ} → E → M E A
bail e s = (err e, s)

abbrev pub done {ℓ} : {E : Type ℓ} → M E (Unit {0})
done s = (ok tt, s)

-- `if !test { bail!(e) }`
abbrev pub ensure {ℓ} : {E : Type ℓ} → Bool → E → M E (Unit {0})
ensure true e = done
ensure false e = bail e

abbrev pub write_budget {ℓ} : {E : Type ℓ} → E → Bytes → ℕ → Stream → Result (Unit {0}) E × Stream
write_budget e msg zero s = (err e, record s { sent = s.sent ++ take s.torn msg })
write_budget e msg (suc n) s = (ok tt, record s { sent = s.sent ++ msg; writable = n })

-- `rw.write_all(msg).await?`
unfoldable pub write_all {ℓ} : {E : Type ℓ} → E → Bytes → M E (Unit {0})
write_all e msg s = write_budget e msg s.writable s

abbrev pub read_split {ℓ} :
    {E : Type ℓ} → E → Option (Bytes × Bytes) → Stream → Result Bytes E × Stream
read_split e none s = (err e, s)
read_split e (some (buf, rest)) s = (ok buf, record s { incoming = rest })

-- `rw.read_exact(&mut buf).await?` with a buffer of `n` bytes
unfoldable pub read_exact {ℓ} : {E : Type ℓ} → E → ℕ → M E Bytes
unfolding split_at
read_exact e n s = read_split e (split_at n s.incoming) s

-- A successful chain of two steps, taken apart.
pub >>=-eq-ok {ℓ κ μ} :
    {E : Type ℓ} {A : Type κ} {B : Type μ} (m : M E A) (f : A → M E B) (s : Stream) {b : B}
    {t : Stream}
    → (m >>= f) s ≡ (ok b, t)
    → (a : A) × (u : Stream) × (m s ≡ (ok a, u)) × (f a u ≡ (ok b, t))
>>=-eq-ok {E = E} {A = A} {B = B} m f s {b} {t} h = go (m s) refl h
  where
    go :
        (r : Result A E × Stream)
        → m s ≡ r
        → bind_result r f ≡ (ok b, t)
        → (a : A) × (u : Stream) × (m s ≡ (ok a, u)) × (f a u ≡ (ok b, t))
    go (ok a, u) e h' = (a, u, e, h')
    go (err x, u) e h' = cc

-- From `s` to `t` the bytes `ins` were read and the bytes `outs` written.
pub record Exchange (s t : Stream) (ins outs : Bytes) : Type 0 where
  pub consumed : s.incoming ≡ ins ++ t.incoming
  pub produced : t.sent ≡ s.sent ++ outs

pub Exchange-trans :
    {s t u : Stream} {a b c d : Bytes}
    → Exchange s t a b
    → Exchange t u c d
    → Exchange s u (a ++ c) (b ++ d)
Exchange-trans {s} {t} {u} {a} {b} {c} {d} p q = record {
  consumed = ground (arith, p.consumed, q.consumed, append_assoc a c u.incoming);
  produced = ground (arith, p.produced, q.produced, append_assoc s.sent b d);
}

module _ {ℓ} {E : Type ℓ} (e : E) where
  pub write_all-eq-ok :
      (msg : Bytes) (s t : Stream) (u : Unit {0})
      → write_all e msg s ≡ (ok u, t)
      → Exchange s t [] msg
  unfolding write_all
  write_all-eq-ok msg s t u h = ground arith

  pub read_exact-eq-ok :
      (n : ℕ) (s t : Stream) (buf : Bytes)
      → read_exact e n s ≡ (ok buf, t)
      → Exchange s t buf [] × (length buf ≡ n)
  unfolding read_exact
  read_exact-eq-ok n s t buf h =
      ground (arith, split_at_sound n s.incoming buf t.incoming, append-nil s.sent)

  -- A read of bytes that have been sent.
  pub read_exact-append :
      (n : ℕ) (buf rest out : Bytes) (w k : ℕ)
      → length buf ≡ n
      → read_exact e n (record { incoming = buf ++ rest; sent = out; writable = w; torn = k })
        ≡ (ok buf, record { incoming = rest; sent = out; writable = w; torn = k })
  unfolding read_exact
  read_exact-append n buf rest out w k h = rw (split_at-append buf rest n h)

  pub ensure-eq-ok :
      (b : Bool) (s t : Stream) (u : Unit {0}) → ensure b e s ≡ (ok u, t) → (b ≡ true) × (s ≡ t)
  ensure-eq-ok true s t u h = (refl, ground arith)
  ensure-eq-ok false s t u h = cc
