-- ===== src/Socks5/Complete.antt =====
-- Every answer of a server that grants the request brings the handshake of src/socks5.rs to success.
use smoltcp_socks.Common.{
  ℕ, is_empty, suc, ◌+◌, ◌≡◌, ◌∷◌, ◌++◌, Option, none, some, Bytes, length, ok, arith, append_assoc,
  append-nil, not, ltb, ◌||◌, true,
}
use smoltcp_socks.Net.{SocketAddr}
use smoltcp_socks.Stream.{Stream, read_exact-append}
use smoltcp_socks.Socks5.{
  Credentials, read_failed, read_bind_addr, auth_userpass, authenticate, client_handshake,
  auth_message, greeting_message,
}
use smoltcp_socks.Socks5.Replies.{
  Bound, bound_v4, bound_v6, bound_domain, IsBound, bound_bytes, ServerReply, IsCredentials,
  CanAuth, IsReply, selected, auth_status, server_bytes, auth_sent, client_bytes, auth_budget,
  budget,
}

-- A write that fails has sent `torn` of its bytes.
module _ (torn : ℕ) where
  abbrev at : Bytes → Bytes → ℕ → Stream
  at incoming sent writable = record {
    incoming = incoming;
    sent = sent;
    writable = writable;
    torn = torn;
  }

  read_bind_addr_complete :
      (b : Bound) (rest out : Bytes) (w : ℕ)
      → IsBound b
      → read_bind_addr (at (bound_bytes b ++ rest) out w) ≡ (ok tt, at rest out w)
  unfolding read_bind_addr
  read_bind_addr_complete (bound_v4 b) rest out w h =
      rw (read_exact-append read_failed 6 b rest out w torn h)
  read_bind_addr_complete (bound_v6 b) rest out w h =
      rw (read_exact-append read_failed 18 b rest out w torn h)
  read_bind_addr_complete (bound_domain len b) rest out w h =
      rw (read_exact-append read_failed (len + 2) b rest out w torn h)

  creds_some :
      (c : Credentials) → IsCredentials c → not (is_empty c.username || is_empty c.password) ≡ true
  creds_some c h = ground arith

  creds_fit :
      (c : Credentials)
      → IsCredentials c
      → not (ltb 255 (length c.username) || ltb 255 (length c.password)) ≡ true
  creds_fit c h = ground arith

  auth_userpass_complete :
      (c : Credentials) (v : ℕ) (rest out : Bytes) (w : ℕ)
      → IsCredentials c
      → auth_userpass c (at (v ∷ 0 ∷ rest) out (suc w)) ≡ (ok tt, at rest (out ++ auth_message c) w)
  unfolding auth_userpass
  auth_userpass_complete c v rest out w h = rw (creds_some c h, creds_fit c h)

  authenticate_complete :
      (auth : Option ℕ) (user : Option Credentials) (rest out : Bytes) (w : ℕ)
      → CanAuth auth user
      → authenticate (selected auth) user (at (auth_status auth ++ rest) out (auth_budget auth w))
        ≡ (ok tt, at rest (out ++ auth_sent auth user) w)
  unfolding authenticate
  authenticate_complete none user rest out w h = rw append-nil
  authenticate_complete (some v) none rest out w h = elim h [ ]
  authenticate_complete (some v) (some c) rest out w h = auth_userpass_complete c v rest out w h

  -- Every answer that grants the request, which includes all that RFC 1928 and RFC 1929 allow for the
  -- client's methods, brings the handshake to success if the writes go through and, where the server
  -- selected credentials, the client has them with 1 to 255 bytes each: the client consumes exactly this answer, so that
  -- the proxied data comes next, and has sent its greeting, the credentials if the server selected them,
  -- and the request.
  pub handshake_complete :
      (target : SocketAddr) (user : Option Credentials) (r : ServerReply) (rest out : Bytes) (w : ℕ)
      → IsReply user r
      → client_handshake target user (at (server_bytes r ++ rest) out (budget r.auth w))
        ≡ (ok tt, at rest (out ++ client_bytes target user r.auth) w)
  unfolding client_handshake
  handshake_complete target user r rest out w h =
      rw
        (append_assoc (auth_status r.auth)
          ((r.reply_version ∷ 0 ∷ r.reserved ∷ bound_bytes r.bound)) rest)
        (rw
          (authenticate_complete r.auth user
            ((r.reply_version ∷ 0 ∷ r.reserved ∷ bound_bytes r.bound) ++ rest)
            (out ++ greeting_message user) (suc w) h.can_auth)
          (rw (read_bind_addr_complete r.bound rest _ w h.is_bound) (simp append_assoc)))
