-- ===== src/Socks5/Connect.antt =====
-- `Socks5Proxy::connect` of src/socks5.rs, when it gives an upstream.
use smoltcp_socks.Common.{◌≡◌, refl, ap, Option, none, some, Bytes, Result, ok, err, ok-injective}
use smoltcp_socks.Net.{SocketAddr}
use smoltcp_socks.Stream.{Stream, Exchange}
use smoltcp_socks.Socks5.{
  HandshakeError, Socks5Proxy, TcpConn, Upstream, ConnectError, connect_failed, client_handshake,
  handshake, server_addr, local_or, finish, connect,
}
use smoltcp_socks.Socks5.Replies.{ServerReply, IsReply, server_bytes, client_bytes}
use smoltcp_socks.Socks5.Sound.{handshake_sound}

-- The upstream is the rest of a granted handshake on the connection `c`.
abbrev pub Granted : Socks5Proxy → SocketAddr → TcpConn → Upstream → Type 0
Granted p target c u =
    (r : ServerReply) × IsReply p.creds r
    × Exchange c.stream u.stream (server_bytes r) (client_bytes target p.creds r.auth)

finish-Granted :
    (p : Socks5Proxy) (target local : SocketAddr) (c : TcpConn) (u : Upstream)
    (x : Result (Unit {0}) HandshakeError × Stream)
    → client_handshake target p.creds c.stream ≡ x
    → finish x local ≡ ok u
    → Granted p target c u
unfolding finish
finish-Granted p target local c u (ok a, s) e h =
    let (r, fits, x) = handshake_sound target p.creds c.stream s a e in
    let same : s ≡ u.stream = ap (λ (v : Upstream). v.stream) (ok-injective h) in
    (r, fits, record { consumed = cc (x.consumed); produced = cc (x.produced) })
finish-Granted p target local c u (err f, s) e h = cc h

-- An upstream that `connect` gives comes from a connection to the proxy's own address, over which the
-- handshake for this target was granted: what was read of it is an answer that the client takes as a
-- grant, and nothing of the proxied data behind it; what was sent is the greeting, the credentials if
-- and only if the server selected them, and the request, whose target is the relay's.
pub connect_sound :
    (dial : Bytes → Option TcpConn) (p : Socks5Proxy) (target : SocketAddr) (u : Upstream)
    → connect dial p target ≡ ok u
    → (c : TcpConn) × (dial (server_addr p) ≡ some c) × Granted p target c u
unfolding connect handshake
connect_sound dial p target u h = go (dial (server_addr p)) refl h
  where
    go :
        (o : Option TcpConn)
        → dial (server_addr p) ≡ o
        → ◌≡◌ {A = Result Upstream ConnectError}
            (elim o [
              | none ↦ err (connect_failed (server_addr p))
              | some c ↦
                  finish (client_handshake target p.creds c.stream) (local_or c.local_addr target)
            ])
            (ok u)
        → (c : TcpConn) × (dial (server_addr p) ≡ some c) × Granted p target c u
    go none e k = cc k
    go (some c) e k = (c, e, finish-Granted p target (local_or c.local_addr target) c u _ refl k)
