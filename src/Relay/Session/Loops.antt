-- ===== src/Relay/Session/Loops.antt =====
-- What the two loops of src/relay.rs do with the bytes of an answer.
use mathlib.Core.Option.{some-injective}
use smoltcp_socks.Common.{
  ℕ, ◌≡◌, refl, ap, sym, ◌∙◌, [], ◌∷◌, ◌++◌, Bytes, Option, none, some, Result, ok, err, drop,
  take-append-drop, ◌==◌, Bool-cases, inl, inr,
}
use smoltcp_socks.Netstack.Vconn.{VConnError}
use smoltcp_socks.Netstack.Conn.{ConnState}
use smoltcp_socks.Relay.Session.{
  awaits_read, awaits_write, read_answered, write_answered, slice_left, source_read, bytes_of,
  accepted_of, outcome,
}
use smoltcp_socks.Relay.Session.Flight.{got}
use smoltcp_socks.Relay.Session.Streams.{Holds, Leaves, gained}

-- What the loops make of an answer.
pub Holds-answered :
    (o : Option (Result Bytes VConnError)) (conn : Option ConnState) (i : ℕ)
    (r : Result Bytes VConnError) (b : Bytes)
    → outcome o conn ≡ some r
    → Holds (awaits_read i o) b
    → Holds (read_answered r) b
unfolding read_answered
Holds-answered o conn i (err e) b p h = tt
Holds-answered none none i (ok []) b p h = absurd (cc p)
Holds-answered none none i (ok (c ∷ d)) b p h = absurd (cc p)
Holds-answered none (some x) i (ok r) b p h = absurd (cc p)
Holds-answered (some x) conn i (ok []) b p h = h ∙ ap got (some-injective _ _ p)
Holds-answered (some x) conn i (ok (c ∷ d)) b p h = h ∙ ap got (some-injective _ _ p)

Leaves-left : (s : Bytes) → Leaves (slice_left s) s
unfolding slice_left
Leaves-left [] = refl
Leaves-left (c ∷ s) = refl

gained-left : (s : Bytes) → gained (slice_left s) ≡ []
unfolding slice_left
gained-left [] = refl
gained-left (c ∷ s) = refl

-- The slice is what is accepted of it and what is left.
pub written_on :
    (slice : Bytes) (r : Result ℕ VConnError)
    → (left : Bytes) × Leaves (write_answered slice r) left
      × (slice ≡ accepted_of slice r ++ left)
      × (gained (write_answered slice r) ≡ [])
unfolding write_answered
written_on slice (err e) = (slice, tt, refl, refl)
written_on slice (ok w) = elim (Bool-cases (w == 0)) [
  | inl e ↦ (drop w slice, rw e tt, sym (take-append-drop w slice), rw e refl)
  | inr e ↦ (
    drop w slice,
    rw e (Leaves-left (drop w slice)),
    sym (take-append-drop w slice),
    rw e (gained-left (drop w slice)),
  )
]

-- What waits in an answer is what the loop then counts.
pub gained-answered :
    (o : Option (Result ℕ VConnError)) (conn : Option ConnState) (slice : Bytes) (i : ℕ)
    (r : Result ℕ VConnError)
    → outcome o conn ≡ some r
    → gained (awaits_write slice i o) ≡ accepted_of slice r
gained-answered none none slice i r p = ap (accepted_of slice) (some-injective _ _ p)
gained-answered none (some c) slice i r p = absurd (cc p)
gained-answered (some x) conn slice i r p = ap (accepted_of slice) (some-injective _ _ p)

pub source_left :
    (o : Option Bytes) → Leaves (source_read o) (bytes_of o) × (gained (source_read o) ≡ [])
unfolding source_read
source_left none = (tt, refl)
source_left (some []) = (refl, refl)
source_left (some (c ∷ b)) = (refl, refl)
