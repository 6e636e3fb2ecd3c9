-- ===== src/Socks5/Sound.antt =====
-- What the handshake of src/socks5.rs has read and sent when it succeeds.
use smoltcp_socks.Common.{
  ℕ, is_empty, ◌+◌, ◌≡◌, refl, ap, sym, subst, ◌∙◌, [], ◌∷◌, ◌++◌, Option, none, some, Bytes,
  length, ok, arith, append_assoc, append-nil, ◌==◌, ==_iff, Bool-cases, inl, inr, not, ltb, ◌||◌,
  true, get_or, length-one, length-two, length-three,
}
use mathlib.Core.Path.{subst₂}
use smoltcp_socks.Net.{SocketAddr}
use smoltcp_socks.Stream.{
  Stream, Exchange, Exchange-trans, ensure, read_exact, write_all, ◌>>=◌, >>=-eq-ok,
  read_exact-eq-ok, write_all-eq-ok, ensure-eq-ok,
}
use smoltcp_socks.Socks5.{
  Credentials, read_failed, write_failed, auth_empty, auth_too_long, auth_rejected, read_bind_addr,
  bind_addr_len, auth_userpass, auth_with, authenticate, client_handshake, auth_message,
  connect_message, greeting_message,
}
use smoltcp_socks.Socks5.Replies.{
  Bound, bound_v4, bound_v6, bound_domain, IsBound, bound_bytes, ServerReply, IsCredentials,
  CanAuth, IsReply, selected, auth_status, server_bytes, auth_sent, client_bytes,
}

-- What a bound address needs behind the address type `a` and the bytes `b`.
abbrev Completes : ℕ → Bytes → ℕ → Type 0
Completes a b n =
    (rest : Bytes)
    → length rest ≡ n + 2
    → (c : Bound) × IsBound c × (a ∷ (b ++ rest) ≡ bound_bytes c)

domain_len_sound :
    (s t : Stream) (n : ℕ)
    → (read_exact read_failed 1 >>= λ len u. (ok (get_or len 0 0), u)) s ≡ (ok n, t)
    → (b : Bytes) × Completes 3 b n × Exchange s t b []
domain_len_sound s t n h =
    let (len, u, e, k) = >>=-eq-ok (read_exact read_failed 1) _ s h in
    let (x, one) = read_exact-eq-ok read_failed 1 s u len e in
    (
      len,
      λ rest l. (bound_domain n rest, l, ground (arith, length-one 0 len one)),
      subst (λ v. Exchange s v len []) (ground arith) x,
    )

nothing : (s t : Stream) → s ≡ t → Exchange s t [] []
nothing s t e =
    subst (λ u. Exchange s u [] []) e
      (record { consumed = refl; produced = sym (append-nil s.sent) })

-- `bind_addr_len` knows the address type, and reads the length byte of a domain.
bind_addr_len_sound :
    (a : ℕ) (s t : Stream) (n : ℕ)
    → bind_addr_len a s ≡ (ok n, t)
    → (b : Bytes) × Completes a b n × Exchange s t b []
unfolding bind_addr_len
bind_addr_len_sound a s t n h = elim (Bool-cases (a == 1)) [
  | inl e ↦ ([], λ rest l. (bound_v4 rest, ground arith, ground arith), nothing s t (ground arith))
  | inr e ↦ elim (Bool-cases (a == 4)) [
    | inl f ↦
        ([], λ rest l. (bound_v6 rest, ground arith, ground arith), nothing s t (ground arith))
    | inr f ↦ elim (Bool-cases (a == 3)) [
      | inl g ↦
          let p : a ≡ 3 = ground arith in
          rw p (domain_len_sound s t n (rw (e, f, g, bind_addr_len) at h))
      | inr g ↦ absurd (ground arith)
    ]
  ]
]

read_bind_addr_sound :
    (s t : Stream) (u : Unit {0})
    → read_bind_addr s ≡ (ok u, t)
    → (b : Bound) × IsBound b × Exchange s t (bound_bytes b) []
unfolding read_bind_addr
read_bind_addr_sound s t u h =
    let (buf, s1, e1, k1) = >>=-eq-ok (read_exact read_failed 1) _ s h in
    let (x1, l1) = read_exact-eq-ok read_failed 1 s s1 buf e1 in
    let (skip, s2, e2, k2) = >>=-eq-ok (bind_addr_len (get_or buf 0 0)) _ s1 k1 in
    let (b, fits, x2) = bind_addr_len_sound (get_or buf 0 0) s1 s2 skip e2 in
    let (rest, s3, e3, k3) = >>=-eq-ok (read_exact read_failed (skip + 2)) _ s2 k2 in
    let (x3, l3) = read_exact-eq-ok read_failed (skip + 2) s2 s3 rest e3 in
    let (c, good, spell) = fits rest l3 in
    let e : buf ++ (b ++ rest) ≡ bound_bytes c =
      ap (λ v. v ++ (b ++ rest)) (length-one 0 buf l1) ∙ spell in
    let f : s3 ≡ t = ap (λ p. p.1) k3 in
    (c, good, subst₂ (λ v i. Exchange s v i []) f e (Exchange-trans x1 (Exchange-trans x2 x3)))

creds_of_tests :
    (c : Credentials)
    → not (is_empty c.username || is_empty c.password) ≡ true
    → not (ltb 255 (length c.username) || ltb 255 (length c.password)) ≡ true
    → IsCredentials c
creds_of_tests c p q = record {
  username_some = ground arith;
  username_fits = ground arith;
  password_some = ground arith;
  password_fits = ground arith;
}

status_zero :
    (status : Bytes)
    → length status ≡ 2
    → (get_or status 1 0 == 0) ≡ true
    → status ≡ get_or status 0 0 ∷ 0 ∷ []
status_zero status l z =
    length-two 0 status l
    ∙ ap (λ b. get_or status 0 0 ∷ b ∷ []) ((==_iff (get_or status 1 0) 0).0 z)

-- Replace the ends of an exchange and what it read by equals.
retarget :
    {s s' t t' : Stream} {a a' b b' : Bytes}
    → s' ≡ s
    → t ≡ t'
    → a ≡ a'
    → b ≡ b'
    → Exchange s t a b
    → Exchange s' t' a' b'
retarget p q e f x = record { consumed = cc (x.consumed); produced = cc (x.produced) }

auth_userpass_sound :
    (c : Credentials) (s t : Stream) (u : Unit {0})
    → auth_userpass c s ≡ (ok u, t)
    → IsCredentials c × (v : ℕ) × (Exchange s t (v ∷ 0 ∷ []) (auth_message c))
unfolding auth_userpass
auth_userpass_sound c s t u h =
    let (_, s1, e1, k1) =
      >>=-eq-ok (ensure (not (is_empty c.username || is_empty c.password)) auth_empty) _ s h in
    let (filled, p1) = ensure-eq-ok auth_empty _ s s1 tt e1 in
    let (_, s2, e2, k2) =
      >>=-eq-ok
        (ensure (not (ltb 255 (length c.username) || ltb 255 (length c.password))) auth_too_long) _
        s1 k1 in
    let (fits, p2) = ensure-eq-ok auth_too_long _ s1 s2 tt e2 in
    let (_, s3, e3, k3) = >>=-eq-ok (write_all write_failed (auth_message c)) _ s2 k2 in
    let x3 = write_all-eq-ok write_failed (auth_message c) s2 s3 tt e3 in
    let (status, s4, e4, k4) = >>=-eq-ok (read_exact read_failed 2) _ s3 k3 in
    let (x4, l4) = read_exact-eq-ok read_failed 2 s3 s4 status e4 in
    let (zeroed, p4) = ensure-eq-ok auth_rejected _ s4 t tt k4 in
    let e : status ≡ get_or status 0 0 ∷ 0 ∷ [] = status_zero status l4 zeroed in
    (
      creds_of_tests c filled fits,
      get_or status 0 0,
      retarget (p1 ∙ p2) p4 e (append-nil (auth_message c)) (Exchange-trans x3 x4),
    )

auth_with_sound :
    (user : Option Credentials) (s t : Stream) (u : Unit {0})
    → auth_with user s ≡ (ok u, t)
    → (v : ℕ) × CanAuth (some v) user × Exchange s t (v ∷ 0 ∷ []) (auth_sent (some v) user)
unfolding auth_with
auth_with_sound none s t u h = cc
auth_with_sound (some c) s t u h = let (k, v, x) = auth_userpass_sound c s t u h in (v, k, x)

authenticate_sound :
    (method : ℕ) (user : Option Credentials) (s t : Stream) (u : Unit {0})
    → authenticate method user s ≡ (ok u, t)
    → (auth : Option ℕ) × (method ≡ selected auth)
      × CanAuth auth user
      × Exchange s t (auth_status auth) (auth_sent auth user)
unfolding authenticate
authenticate_sound method user s t u h = elim (Bool-cases (method == 2)) [
  | inl e ↦
      let (v, k, x) = auth_with_sound user s t u (rw (e, authenticate) at h) in
      (some v, ground arith, k, x)
  | inr e ↦ elim (Bool-cases (method == 0)) [
    | inl f ↦ (none, ground arith, tt, nothing s t (ground arith))
    | inr f ↦ elim (Bool-cases (method == 255)) [
      | inl g ↦ absurd (ground arith)
      | inr g ↦ absurd (ground arith)
    ]
  ]
]

version_method :
    (greeting : Bytes) (auth : Option ℕ)
    → length greeting ≡ 2
    → (get_or greeting 0 0 == 5) ≡ true
    → get_or greeting 1 0 ≡ selected auth
    → greeting ≡ 5 ∷ selected auth ∷ []
version_method greeting auth l v m =
    length-two 0 greeting l
    ∙ ap (λ b. b ∷ get_or greeting 1 0 ∷ []) ((==_iff (get_or greeting 0 0) 5).0 v)
    ∙ ap (λ b. 5 ∷ b ∷ []) m

granted :
    (rep : Bytes)
    → length rep ≡ 3
    → (get_or rep 1 0 == 0) ≡ true
    → rep ≡ get_or rep 0 0 ∷ 0 ∷ get_or rep 2 0 ∷ []
granted rep l z =
    length-three 0 rep l
    ∙ ap (λ b. get_or rep 0 0 ∷ b ∷ get_or rep 2 0 ∷ []) ((==_iff (get_or rep 1 0) 0).0 z)

assemble :
    {s s1 s2 s3 s4 s5 s6 s7 t : Stream} {g greeting v a o c rep r b : Bytes}
    → Exchange s s1 [] g
    → Exchange s1 s2 greeting []
    → s2 ≡ s3
    → Exchange s3 s4 a o
    → Exchange s4 s5 [] c
    → Exchange s5 s6 rep []
    → s6 ≡ s7
    → Exchange s7 t b []
    → greeting ≡ v
    → rep ≡ r
    → Exchange s t (v ++ (a ++ (r ++ b))) ((g ++ o) ++ c)
assemble {g} {a} {o} {c} {b} x1 x2 p3 x4 x5 x6 p7 x8 e f =
    retarget refl refl (cc) (simp (append_assoc, append-nil)) (
      Exchange-trans x1 (
        Exchange-trans x2 (
          Exchange-trans (retarget p3 refl refl refl x4)
            (Exchange-trans x5 (Exchange-trans x6 (retarget p7 refl refl refl x8))))))

-- If the handshake succeeds then what the client has read, and no byte more, is an answer of the form
-- 5, method, status, reply, bound address: the method is 0 without a status, or 2 with one whose
-- second byte is 0, the second of the reply's three bytes is 0, and the bound address is an IPv4 or
-- IPv6 address or a domain, whole and with its port; the other bytes, which the client does not look
-- at, can be any, and the method need not be the one offered. With method 2 the client had credentials
-- of 1 to 255 bytes each; and it has sent its greeting, then the credentials if and only if the method
-- was 2, then the request.
pub handshake_sound :
    (target : SocketAddr) (user : Option Credentials) (s t : Stream) (u : Unit {0})
    → client_handshake target user s ≡ (ok u, t)
    → (r : ServerReply) × IsReply user r
      × Exchange s t (server_bytes r) (client_bytes target user r.auth)
unfolding client_handshake
handshake_sound target user s t u h =
    let (_, s1, e1, k1) = >>=-eq-ok (write_all write_failed (greeting_message user)) _ s h in
    let x1 = write_all-eq-ok write_failed (greeting_message user) s s1 tt e1 in
    let (greeting, s2, e2, k2) = >>=-eq-ok (read_exact read_failed 2) _ s1 k1 in
    let (x2, l2) = read_exact-eq-ok read_failed 2 s1 s2 greeting e2 in
    let (_, s3, e3, k3) = >>=-eq-ok (ensure (get_or greeting 0 0 == 5) _) _ s2 k2 in
    let (v, p3) = ensure-eq-ok _ _ s2 s3 tt e3 in
    let (_, s4, e4, k4) = >>=-eq-ok (authenticate (get_or greeting 1 0) user) _ s3 k3 in
    let (auth, m, can, x4) = authenticate_sound (get_or greeting 1 0) user s3 s4 tt e4 in
    let (_, s5, e5, k5) = >>=-eq-ok (write_all write_failed (connect_message target)) _ s4 k4 in
    let x5 = write_all-eq-ok write_failed (connect_message target) s4 s5 tt e5 in
    let (rep, s6, e6, k6) = >>=-eq-ok (read_exact read_failed 3) _ s5 k5 in
    let (x6, l6) = read_exact-eq-ok read_failed 3 s5 s6 rep e6 in
    let (_, s7, e7, k7) = >>=-eq-ok (ensure (get_or rep 1 0 == 0) _) _ s6 k6 in
    let (z, p7) = ensure-eq-ok _ _ s6 s7 tt e7 in
    let (bound, good, x8) = read_bind_addr_sound s7 t u k7 in
    (
      record {
        auth = auth;
        reply_version = get_or rep 0 0;
        reserved = get_or rep 2 0;
        bound = bound;
      },
      record { can_auth = can; is_bound = good },
      assemble x1 x2 p3 x4 x5 x6 p7 x8 (version_method greeting auth l2 v m) (granted rep l6 z),
    )
