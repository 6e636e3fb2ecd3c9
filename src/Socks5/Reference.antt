-- ===== src/Socks5/Reference.antt =====
-- The outcome of the handshake of src/socks5.rs as a function of the bytes that the server sends: the
-- client's own tests, its credentials included, without the stream and its writes. Like the client it
-- ignores VER and RSV of the reply and VER of the status.
use smoltcp_socks.Common.{
  ℕ, zero, suc, ◌+◌, ◌≡◌, refl, ◌==◌, ltb, if◌then◌else◌, ◌||◌, List, [], ◌∷◌, ◌++◌, Option, none,
  some, Bytes, length, take, drop, split_at, is_empty, Result, ok, err, arith, Bool-cases, inl, inr,
  get_or,
}
use smoltcp_socks.Net.{SocketAddr}
use smoltcp_socks.Stream.{Stream, M, write_all, read_exact, done, ensure, ◌>>=◌}
use smoltcp_socks.Socks5.{
  Credentials, HandshakeError, read_failed, write_failed, version_mismatched, auth_required,
  no_acceptable, unsupported_method, connect_rejected, auth_empty, auth_too_long, auth_rejected,
  unsupported_atyp, reply_str, auth_userpass, auth_with, authenticate, bind_addr_len,
  read_bind_addr, client_handshake, greeting_message, auth_message, connect_message,
}

-- The proxied data, or the error.
abbrev pub Answer : Type 0
Answer = Result Bytes HandshakeError

abbrev pub skip : ℕ → Bytes → Answer
skip n b = if ltb (length b) n then err read_failed else ok (drop n b)

-- BND.ADDR and BND.PORT
abbrev pub after_bound : Bytes → Answer
after_bound [] = err read_failed
after_bound (atyp ∷ b) =
    if atyp == 1
    then skip 6 b
    else if atyp == 4
    then skip 18 b
    else if atyp == 3
    then elim b [ [] ↦ err read_failed | len ∷ c ↦ skip (len + 2) c ]
    else err (unsupported_atyp atyp)

-- VER, REP and RSV
abbrev pub after_reply : Bytes → Answer
after_reply (ver ∷ rep ∷ rsv ∷ b) =
    if rep == 0 then after_bound b else err (connect_rejected (reply_str rep))
after_reply _ = err read_failed

-- VER and STATUS
abbrev pub after_status : Bytes → Answer
after_status (ver ∷ status ∷ b) = if status == 0 then after_reply b else err auth_rejected
after_status _ = err read_failed

abbrev pub after_credentials : Option Credentials → Bytes → Answer
after_credentials none b = err auth_required
after_credentials (some c) b =
    if is_empty c.username || is_empty c.password
    then err auth_empty
    else if ltb 255 (length c.username) || ltb 255 (length c.password)
    then err auth_too_long
    else after_status b

abbrev pub after_method : ℕ → Option Credentials → Bytes → Answer
after_method method user b =
    if method == 2
    then after_credentials user b
    else if method == 0
    then after_reply b
    else if method == 255
    then err no_acceptable
    else err (unsupported_method method)

-- VER and METHOD
abbrev pub answer_of : Option Credentials → Bytes → Answer
answer_of user (ver ∷ method ∷ b) =
    if ver == 5 then after_method method user b else err (version_mismatched ver)
answer_of user _ = err read_failed

-- What a computation over the stream says, and what it leaves to be read.
abbrev pub outcome {ℓ} : {A : Type ℓ} → Result A HandshakeError × Stream → Answer
outcome (ok a, s) = ok s.incoming
outcome (err e, s) = err e

abbrev pub at : ℕ → Bytes → Bytes → ℕ → Stream
at k b out w = record { incoming = b; sent = out; writable = w; torn = k }

split_at_lem {ℓ} :
    {A : Type ℓ} (n : ℕ) (xs : List A)
    → split_at n xs ≡ (if ltb (length xs) n then none else some (take n xs, drop n xs))
unfolding split_at
split_at_lem zero xs = ground arith
split_at_lem (suc n) [] = ground arith
split_at_lem (suc n) (x ∷ xs) = ground (arith, split_at_lem n xs)

-- A write that fails has sent `torn` of its bytes.
module _ (torn : ℕ) where
  skip_lem :
      (n : ℕ) (b out : Bytes) (w : ℕ)
      → outcome ((read_exact read_failed n >>= λ _. done {E = HandshakeError}) (at torn b out w))
        ≡ skip n b
  unfolding read_exact
  skip_lem n b out w = elim (Bool-cases (ltb (length b) n)) [
    | inl e ↦ rw (split_at_lem n b, e) refl
    | inr e ↦ rw (split_at_lem n b, e) refl
  ]

  domain_lem :
      (b out : Bytes) (w : ℕ)
      → outcome (
          ((read_exact read_failed 1 >>= λ len s. (ok (get_or len 0 0), s)) >>= λ n.
          read_exact read_failed (n + 2) >>= λ _. done {E = HandshakeError})
            (at torn b out w))
        ≡ elim b [ [] ↦ err read_failed | len ∷ c ↦ skip (len + 2) c ]
  unfolding read_exact
  domain_lem [] out w = refl
  domain_lem (len ∷ b) out w = skip_lem (len + 2) b out w

  read_bind_addr_lem :
      (b out : Bytes) (w : ℕ) → outcome (read_bind_addr (at torn b out w)) ≡ after_bound b
  unfolding read_bind_addr bind_addr_len
  read_bind_addr_lem [] out w = refl
  read_bind_addr_lem (atyp ∷ b) out w = elim (Bool-cases (atyp == 1)) [
    | inl e ↦ rw e (skip_lem 6 b out w)
    | inr e ↦ elim (Bool-cases (atyp == 4)) [
      | inl f ↦ rw (e, f) (skip_lem 18 b out w)
      | inr f ↦ elim (Bool-cases (atyp == 3)) [
        | inl g ↦ rw (e, f, g) (domain_lem b out w)
        | inr g ↦ rw (e, f, g) refl
      ]
    ]
  ]

  -- `f` is the handshake from the request on.
  module _ (f : Unit {0} → M HandshakeError (Unit {0}))
      (f_lem : (b out : Bytes) (w : ℕ)
        → outcome (f tt (at torn b out (suc w))) ≡ after_reply b) where
    status_lem :
        (b out : Bytes) (w : ℕ)
        → outcome (
            ((read_exact read_failed 2 >>= λ status.
            ensure (get_or status 1 0 == 0x00) auth_rejected)
                >>= f)
              (at torn b out (suc w)))
          ≡ after_status b
    unfolding read_exact
    status_lem [] out w = refl
    status_lem (_ ∷ []) out w = refl
    status_lem (ver ∷ status ∷ b) out w = elim (Bool-cases (status == 0)) [
      | inl e ↦ rw e (f_lem b out w)
      | inr e ↦ rw e refl
    ]

    after_auth_userpass :
        (c : Credentials) (b out : Bytes) (w : ℕ)
        → outcome ((auth_userpass c >>= f) (at torn b out (suc (suc w))))
          ≡ after_credentials (some c) b
    unfolding auth_userpass
    after_auth_userpass c b out w = elim (Bool-cases (is_empty c.username || is_empty c.password)) [
      | inl e ↦ rw e refl
      | inr e ↦ elim (Bool-cases (ltb 255 (length c.username) || ltb 255 (length c.password))) [
        | inl g ↦ rw (e, g) refl
        | inr g ↦ rw (e, g) (status_lem b (out ++ auth_message c) w)
      ]
    ]

    after_auth_with :
        (user : Option Credentials) (b out : Bytes) (w : ℕ)
        → outcome ((auth_with user >>= f) (at torn b out (suc (suc w)))) ≡ after_credentials user b
    unfolding auth_with
    after_auth_with none b out w = refl
    after_auth_with (some c) b out w = after_auth_userpass c b out w

    after_authenticate :
        (method : ℕ) (user : Option Credentials) (b out : Bytes) (w : ℕ)
        → outcome ((authenticate method user >>= f) (at torn b out (suc (suc w))))
          ≡ after_method method user b
    unfolding authenticate
    after_authenticate method user b out w = elim (Bool-cases (method == 2)) [
      | inl e ↦ rw e (after_auth_with user b out w)
      | inr e ↦ elim (Bool-cases (method == 0)) [
        | inl g ↦ rw (e, g) (f_lem b out (suc w))
        | inr g ↦ elim (Bool-cases (method == 255)) [
          | inl k ↦ rw (e, g, k) refl
          | inr k ↦ rw (e, g, k) refl
        ]
      ]
    ]

  -- The request, and the server's reply to it.
  request_lem :
      (target : SocketAddr) (b out : Bytes) (w : ℕ)
      → outcome (
          (write_all write_failed (connect_message target) >>= λ _.
          read_exact read_failed 3 >>= λ rep.
          ensure (get_or rep 1 0 == 0x00) (connect_rejected (reply_str (get_or rep 1 0))) >>= λ _.
          read_bind_addr)
            (at torn b out (suc w)))
        ≡ after_reply b
  unfolding write_all read_exact
  request_lem target [] out w = refl
  request_lem target (_ ∷ []) out w = refl
  request_lem target (_ ∷ _ ∷ []) out w = refl
  request_lem target (ver ∷ rep ∷ rsv ∷ b) out w = elim (Bool-cases (rep == 0)) [
    | inl e ↦ rw e (read_bind_addr_lem b (out ++ connect_message target) w)
    | inr e ↦ rw e refl
  ]

  -- The outcome is a function of the server's bytes and the credentials, if the writes go through.
  pub client_handshake-answer_of :
      (target : SocketAddr) (user : Option Credentials) (b out : Bytes) (w : ℕ)
      → outcome (client_handshake target user (at torn b out (suc (suc (suc w)))))
        ≡ answer_of user b
  unfolding client_handshake
  client_handshake-answer_of target user [] out w = refl
  client_handshake-answer_of target user (_ ∷ []) out w = refl
  client_handshake-answer_of target user (ver ∷ method ∷ b) out w = elim (Bool-cases (ver == 5)) [
    | inl e ↦
        rw e
          (after_authenticate _ (request_lem target) method user b (out ++ greeting_message user) w)
    | inr e ↦ rw e refl
  ]
