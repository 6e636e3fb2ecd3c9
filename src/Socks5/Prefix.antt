-- ===== src/Socks5/Prefix.antt =====
-- The handshake of src/socks5.rs on a part of what the server sends, and on the whole of it.
use smoltcp_socks.Common.{
  ℕ, zero, suc, ◌+◌, ◌≤◌, ◌≡◌, refl, ap, sym, ◌∙◌, ◌==◌, ltb, ◌||◌, [], ◌∷◌, ◌++◌, Option, none,
  some, Bytes, length, drop, is_empty, Result, ok, err, ok-injective, arith, ◌⊎◌, inl, inr,
  Bool-cases, length-append,
}
use smoltcp_socks.Net.{SocketAddr}
use smoltcp_socks.Stream.{Stream}
use smoltcp_socks.Socks5.{Credentials, HandshakeError, read_failed, client_handshake}
use smoltcp_socks.Socks5.Reference.{
  Answer, skip, after_bound, after_reply, after_status, after_credentials, after_method, answer_of,
  outcome, at, client_handshake-answer_of,
}

-- The same outcome, with `x` behind the proxied data.
abbrev pub extend : Answer → Bytes → Answer
extend (ok b) x = ok (b ++ x)
extend (err e) x = err e

-- A function of the server's bytes that has not run out of them before `x` does not look at `x`.
abbrev Settles : (Bytes → Answer) → Type 0
Settles f = (b x : Bytes) → (f b ≡ err read_failed) ⊎ (f (b ++ x) ≡ extend (f b) x)

drop-append : (n : ℕ) (b x : Bytes) → n ≤ length b → drop n (b ++ x) ≡ drop n b ++ x
drop-append zero b x h = refl
drop-append (suc n) [] x h = absurd (omega arith)
drop-append (suc n) (c ∷ b) x h = drop-append n b x (omega arith)

skip-Settles : (n : ℕ) → Settles (skip n)
skip-Settles n b x = elim (Bool-cases (ltb (length b) n)) [
  | inl e ↦ inl (rw e refl)
  | inr e ↦ inr (ground (arith, length-append b x, drop-append n b x (ground arith)))
]

after_bound-Settles : Settles after_bound
after_bound-Settles [] x = inl refl
after_bound-Settles (atyp ∷ b) x = elim (Bool-cases (atyp == 1)) [
  | inl e ↦ rw e (skip-Settles 6 b x)
  | inr e ↦ elim (Bool-cases (atyp == 4)) [
    | inl f ↦ rw (e, f) (skip-Settles 18 b x)
    | inr f ↦ elim (Bool-cases (atyp == 3)) [
      | inl g ↦ rw (e, f, g) (domain b x)
      | inr g ↦ rw (e, f, g) (inr refl)
    ]
  ]
]
  where
    domain : Settles (λ b. elim b [ [] ↦ err read_failed | len ∷ c ↦ skip (len + 2) c ])
    domain [] y = inl refl
    domain (len ∷ c) y = skip-Settles (len + 2) c y

after_reply-Settles : Settles after_reply
after_reply-Settles [] x = inl refl
after_reply-Settles (_ ∷ []) x = inl refl
after_reply-Settles (_ ∷ _ ∷ []) x = inl refl
after_reply-Settles (ver ∷ rep ∷ rsv ∷ b) x = elim (Bool-cases (rep == 0)) [
  | inl e ↦ rw e (after_bound-Settles b x)
  | inr e ↦ rw e (inr refl)
]

after_status-Settles : Settles after_status
after_status-Settles [] x = inl refl
after_status-Settles (_ ∷ []) x = inl refl
after_status-Settles (ver ∷ status ∷ b) x = elim (Bool-cases (status == 0)) [
  | inl e ↦ rw e (after_reply-Settles b x)
  | inr e ↦ rw e (inr refl)
]

after_credentials-Settles : (user : Option Credentials) → Settles (after_credentials user)
after_credentials-Settles none b x = inr refl
after_credentials-Settles (some c) b x =
    elim (Bool-cases (is_empty c.username || is_empty c.password)) [
      | inl e ↦ rw e (inr refl)
      | inr e ↦ elim (Bool-cases (ltb 255 (length c.username) || ltb 255 (length c.password))) [
        | inl f ↦ rw (e, f) (inr refl)
        | inr f ↦ rw (e, f) (after_status-Settles b x)
      ]
    ]

after_method-Settles : (method : ℕ) (user : Option Credentials) → Settles (after_method method user)
after_method-Settles method user b x = elim (Bool-cases (method == 2)) [
  | inl e ↦ rw e (after_credentials-Settles user b x)
  | inr e ↦ elim (Bool-cases (method == 0)) [
    | inl f ↦ rw (e, f) (after_reply-Settles b x)
    | inr f ↦ elim (Bool-cases (method == 255)) [
      | inl g ↦ rw (e, f, g) (inr refl)
      | inr g ↦ rw (e, f, g) (inr refl)
    ]
  ]
]

answer_of-Settles : (user : Option Credentials) → Settles (answer_of user)
answer_of-Settles user [] x = inl refl
answer_of-Settles user (_ ∷ []) x = inl refl
answer_of-Settles user (ver ∷ method ∷ b) x = elim (Bool-cases (ver == 5)) [
  | inl e ↦ rw e (after_method-Settles method user b x)
  | inr e ↦ rw e (inr refl)
]

-- What the client says, once it has read all that it needs, no longer depends on the server: if the
-- handshake, on the bytes `b`, does not end for want of bytes, then on `b` and whatever comes behind
-- them it ends with the same error, or with success and all of the further bytes left for the relay;
-- also for another target and another start of the stream, if the writes go through.
pub handshake_settles :
    (target target' : SocketAddr) (user : Option Credentials) (b x : Bytes) (torn torn' : ℕ)
    (out out' : Bytes) (w w' : ℕ)
    → let early = outcome (client_handshake target user (at torn b out (suc (suc (suc w))))) in
      (early ≡ err read_failed)
      ⊎ (outcome (client_handshake target' user (at torn' (b ++ x) out' (suc (suc (suc w')))))
          ≡ extend early x)
handshake_settles target target' user b x torn torn' out out' w w' =
    let first = client_handshake-answer_of torn target user b out w in
    let second = client_handshake-answer_of torn' target' user (b ++ x) out' w' in
    elim (answer_of-Settles user b x) [
      | inl e ↦ inl (first ∙ e)
      | inr e ↦ inr (second ∙ e ∙ ap (λ a. extend a x) (sym first))
    ]

too_short :
    (a : Answer) (x rest : Bytes)
    → suc (length rest) ≤ length x
    → ok rest ≡ extend a x
    → a ≡ err read_failed
too_short (ok b) x rest h e = absurd (ground (arith, ap length (ok-injective e), length-append b x))
too_short (err f) x rest h e = cc

-- A server that closes in the middle of its answer fails the handshake with a failed read, never with
-- success or another error: if on `b` and `x` the handshake succeeds, and it has needed a byte of `x`,
-- then on `b` alone its error is the failed read, if the writes go through.
pub handshake_cut_off :
    (target target' : SocketAddr) (user : Option Credentials) (b x rest : Bytes) (torn torn' : ℕ)
    (out out' : Bytes) (w w' : ℕ)
    → outcome (client_handshake target' user (at torn' (b ++ x) out' (suc (suc (suc w')))))
      ≡ ok rest
    → suc (length rest) ≤ length x
    → (client_handshake target user (at torn b out (suc (suc (suc w))))).0 ≡ err read_failed
handshake_cut_off target target' user b x rest torn torn' out out' w w' whole needed =
    failed (client_handshake target user (at torn b out (suc (suc (suc w)))))
      (elim (handshake_settles target target' user b x torn torn' out out' w w') [
        | inl e ↦ e
        | inr e ↦ too_short _ x rest needed (sym whole ∙ e)
      ])
  where
    failed :
        (r : Result (Unit {0}) HandshakeError × Stream)
        → outcome r ≡ err read_failed
        → r.0 ≡ err read_failed
    failed (ok u, s) e = cc
    failed (err f, s) e = cc
