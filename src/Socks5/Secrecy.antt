-- ===== src/Socks5/Secrecy.antt =====
-- What the handshake of src/socks5.rs has sent, also when it fails.
use smoltcp_socks.Common.{
  ℕ, zero, suc, ◌+◌, ◌≡◌, ◌≢◌, refl, ap, subst, sym, ◌∙◌, ◌⊎◌, inl, inr, [], ◌∷◌, ◌++◌, Option,
  some, Bytes, Bool, true, false, get_or, Result, ok, err, arith, ◌==◌, Option-cases, split_at,
  take, drop, take-append-drop, append-nil, append_assoc,
}
use smoltcp_socks.Net.{SocketAddr}
use smoltcp_socks.Stream.{
  Stream, M, bind_result, read_split, write_budget, ◌>>=◌, ◌>>◌, read_exact, write_all, ensure,
}
use smoltcp_socks.Socks5.{
  Credentials, HandshakeError, read_failed, write_failed, version_mismatched, connect_rejected,
  reply_str, read_bind_addr, bind_addr_len, authenticate, client_handshake, connect_message,
  greeting_message,
}

-- A step that sends nothing, whatever comes of it.
abbrev IsQuiet {ℓ} : {A : Type ℓ} → M HandshakeError A → Type 0
IsQuiet m = (s : Stream) → (m s).1.sent ≡ s.sent

IsQuiet-bind {ℓ κ} :
    {A : Type ℓ} {B : Type κ} (m : M HandshakeError A) (f : A → M HandshakeError B)
    → IsQuiet m
    → ((a : A) → IsQuiet (f a))
    → IsQuiet (m >>= f)
IsQuiet-bind {A = A} m f q r s = go (m s) (q s)
  where
    go :
        (x : Result A HandshakeError × Stream)
        → x.1.sent ≡ s.sent
        → (bind_result x f).1.sent ≡ s.sent
    go (ok a, t) e = r a t ∙ e
    go (err x, t) e = e

read_exact-IsQuiet : (e : HandshakeError) (n : ℕ) → IsQuiet (read_exact e n)
unfolding read_exact
read_exact-IsQuiet e n s = ground arith

ensure-IsQuiet : (b : Bool) (e : HandshakeError) → IsQuiet (ensure b e)
ensure-IsQuiet true e s = refl
ensure-IsQuiet false e s = refl

bind_addr_len-IsQuiet : (a : ℕ) → IsQuiet (bind_addr_len a)
unfolding bind_addr_len
bind_addr_len-IsQuiet a s = ground (arith, read_exact-IsQuiet read_failed 1 s)

read_bind_addr-IsQuiet : IsQuiet read_bind_addr
unfolding read_bind_addr
read_bind_addr-IsQuiet =
    IsQuiet-bind (read_exact read_failed 1) _ (read_exact-IsQuiet read_failed 1) λ a.
      IsQuiet-bind (bind_addr_len (get_or a 0 0)) _ (bind_addr_len-IsQuiet (get_or a 0 0)) λ n.
        IsQuiet-bind (read_exact read_failed (n + 2)) _ (read_exact-IsQuiet read_failed (n + 2))
          λ _ s. refl

-- Without a request for credentials, the choice of the method sends nothing.
authenticate-IsQuiet :
    (method : ℕ) (user : Option Credentials) → method ≢ 2 → IsQuiet (authenticate method user)
unfolding authenticate
authenticate-IsQuiet method user h s = ground arith

-- From `start` on, a first part of `msg` was sent, or the whole of it.
abbrev pub Sends : Bytes → Bytes → Bytes → Type 0
Sends start msg out = (p : Bytes) × (rest : Bytes) × (out ≡ start ++ p) × (msg ≡ p ++ rest)

Sends-none : (start msg out : Bytes) → out ≡ start → Sends start msg out
Sends-none start msg out e = ([], msg, e ∙ sym (append-nil start), refl)

abbrev SendsAtMost {ℓ} : {A : Type ℓ} → Bytes → M HandshakeError A → Type 0
SendsAtMost msg m = (s : Stream) → Sends s.sent msg (m s).1.sent

SendsAtMost-bind {ℓ κ} :
    {A : Type ℓ} {B : Type κ} (msg : Bytes) (m : M HandshakeError A) (f : A → M HandshakeError B)
    → IsQuiet m
    → ((a : A) → SendsAtMost msg (f a))
    → SendsAtMost msg (m >>= f)
SendsAtMost-bind {A = A} msg m f q r s = go (m s) (q s)
  where
    go :
        (x : Result A HandshakeError × Stream)
        → x.1.sent ≡ s.sent
        → Sends s.sent msg (bind_result x f).1.sent
    go (ok a, t) e = subst (λ start. Sends start msg (f a t).1.sent) e (r a t)
    go (err x, t) e = Sends-none s.sent msg t.sent e

-- A write sends a first part of its message and fails, or goes through.
after_write {κ} :
    {B : Type κ} (e : HandshakeError) (msg : Bytes) (k : M HandshakeError B) (s : Stream)
    → ((write_all e msg >> k) s ≡ (err e, record s { sent = s.sent ++ take s.torn msg }))
      ⊎ ((w : ℕ) × ((write_all e msg >> k) s
            ≡ k (record {
              incoming = s.incoming;
              sent = s.sent ++ msg;
              writable = w;
              torn = s.torn;
            })))
unfolding write_all
after_write {B = B} e msg k s = go s.writable
  where
    go :
        (n : ℕ)
        → (bind_result (write_budget e msg n s) (λ _. k)
            ≡ (err e, record s { sent = s.sent ++ take s.torn msg }))
          ⊎ ((w : ℕ) × (bind_result (write_budget e msg n s) (λ _. k)
                ≡ k (record {
                  incoming = s.incoming;
                  sent = s.sent ++ msg;
                  writable = w;
                  torn = s.torn;
                })))
    go zero = inl refl
    go (suc w) = inr (w, refl)

write_all-SendsAtMost {κ} :
    {B : Type κ} (e : HandshakeError) (msg : Bytes) (k : M HandshakeError B)
    → IsQuiet k
    → SendsAtMost msg (write_all e msg >> k)
write_all-SendsAtMost e msg k q s = elim (after_write e msg k s) [
  | inl f ↦
      (take s.torn msg, drop s.torn msg, ap (λ r. r.1.sent) f, sym (take-append-drop s.torn msg))
  | inr (w, f) ↦ (msg, [], ap (λ r. r.1.sent) f ∙ q _, sym (append-nil msg))
]

-- The method byte is the second byte that the server sends.
method_byte : (i buf rest : Bytes) → split_at 2 i ≡ some (buf, rest) → get_or buf 1 0 ≡ get_or i 1 0
unfolding split_at
method_byte [] buf rest h = cc
method_byte (a ∷ []) buf rest h = cc
method_byte (a ∷ b ∷ i) buf rest h = ground arith

-- The handshake from the method selection on.
abbrev selection : SocketAddr → Option Credentials → Bytes → M HandshakeError (Unit {0})
selection target user greeting =
    ensure (get_or greeting 0 0 == 5) (version_mismatched (get_or greeting 0 0))
    >> (authenticate (get_or greeting 1 0) user
        >> (write_all write_failed (connect_message target)
            >> (read_exact read_failed 3 >>= λ rep.
                (ensure (get_or rep 1 0 == 0) (connect_rejected (reply_str (get_or rep 1 0)))
                  >> read_bind_addr))))

selection-SendsAtMost :
    (target : SocketAddr) (user : Option Credentials) (greeting : Bytes)
    → get_or greeting 1 0 ≢ 2
    → SendsAtMost (connect_message target) (selection target user greeting)
selection-SendsAtMost target user greeting h =
    SendsAtMost-bind _ (ensure (get_or greeting 0 0 == 5) _) _ (ensure-IsQuiet _ _) λ _.
      SendsAtMost-bind _ (authenticate (get_or greeting 1 0) user) _
        (authenticate-IsQuiet (get_or greeting 1 0) user h)
        λ _. write_all-SendsAtMost write_failed (connect_message target) _ (
          IsQuiet-bind (read_exact read_failed 3) _ (read_exact-IsQuiet read_failed 3) λ rep.
            IsQuiet-bind (ensure (get_or rep 1 0 == 0) _) _ (ensure-IsQuiet _ _)
              λ _. read_bind_addr-IsQuiet)

abbrev answer : SocketAddr → Option Credentials → M HandshakeError (Unit {0})
answer target user = read_exact read_failed 2 >>= selection target user

answer-Sends :
    (target : SocketAddr) (user : Option Credentials) (s : Stream)
    → get_or s.incoming 1 0 ≢ 2
    → Sends s.sent (connect_message target) (answer target user s).1.sent
unfolding read_exact
answer-Sends target user s h = elim (Option-cases (split_at 2 s.incoming)) [
  | inl e ↦
      Sends-none s.sent (connect_message target) _
        (ap (λ o. (bind_result (read_split read_failed o s) (selection target user)).1.sent) e)
  | inr ((buf, rest), e) ↦
      subst
        (λ o.
          Sends s.sent (connect_message target)
            (bind_result (read_split read_failed o s) (selection target user)).1.sent)
        (sym e)
        (selection-SendsAtMost target user buf
          (λ f. h (sym (method_byte s.incoming buf rest e) ∙ f)) (record s { incoming = rest }))
]

-- One message behind another.
Sends-behind : (start a b out : Bytes) → Sends (start ++ a) b out → Sends start (a ++ b) out
Sends-behind start a b out (p, rest, e, f) =
    (a ++ p, rest, e ∙ append_assoc start a p, ap (◌++◌ a) f ∙ sym (append_assoc a p rest))

-- If the server has not selected username/password authentication then, however the handshake ends,
-- also in the middle of a write, what the client has sent is a first part of its greeting with the
-- request behind it, or the whole of these: no credentials.
pub credentials_withheld :
    (target : SocketAddr) (user : Option Credentials) (s : Stream)
    → get_or s.incoming 1 0 ≢ 2
    → let out = (client_handshake target user s).1.sent in
      (p : Bytes) × (rest : Bytes) × (out ≡ s.sent ++ p)
      × (greeting_message user ++ connect_message target ≡ p ++ rest)
unfolding client_handshake
credentials_withheld target user s h =
    elim (after_write write_failed (greeting_message user) (answer target user) s) [
      | inl f ↦ (
        take s.torn (greeting_message user),
        drop s.torn (greeting_message user) ++ connect_message target,
        ap (λ r. r.1.sent) f,
        ap (λ l. l ++ connect_message target)
              (sym (take-append-drop s.torn (greeting_message user)))
            ∙ append_assoc (take s.torn (greeting_message user)) _ (connect_message target),
      )
      | inr (w, f) ↦
          subst (Sends s.sent (greeting_message user ++ connect_message target))
            (sym (ap (λ r. r.1.sent) f))
            (Sends-behind s.sent (greeting_message user) (connect_message target) _ (
              answer-Sends target user
                (record {
                  incoming = s.incoming;
                  sent = s.sent ++ greeting_message user;
                  writable = w;
                  torn = s.torn;
                })
                h))
    ]
