-- ===== src/Socks5/Examples.antt =====
-- Tests of the handshake of src/socks5.rs, and its theorems at concrete inputs.
use smoltcp_socks.Common.{
  Option, Bytes, ap, ◌≡◌, ◌⊎◌, refl, [], ◌∷◌, ◌++◌, none, some, codes, ok, err, arith, List, map,
}
use smoltcp_socks.Net.{v4, SocketAddr}
use smoltcp_socks.Stream.{Stream, Exchange}
use smoltcp_socks.Socks5.{
  Socks5Proxy, TcpConn, Upstream, server_addr, connect, handshake, finish, local_or, Credentials,
  client_handshake, greeting_message, auth_message, connect_message, connect_rejected,
  auth_required, reply_str, read_failed, unsupported_atyp, version_mismatched, auth_rejected,
}
use smoltcp_socks.Socks5.Replies.{bound_domain, ServerReply, IsReply, server_bytes, client_bytes}
use smoltcp_socks.Socks5.Complete.{handshake_complete}
use smoltcp_socks.Socks5.Sound.{handshake_sound}
use smoltcp_socks.Socks5.Request.{
  read_request, read_request-connect_message, read_auth, read_auth-auth_message,
}
use smoltcp_socks.Socks5.Secrecy.{credentials_withheld}
use smoltcp_socks.Socks5.Reference.{Answer, answer_of, outcome}
use smoltcp_socks.Socks5.Connect.{Granted, connect_sound}
use smoltcp_socks.Socks5.Prefix.{extend, handshake_settles, handshake_cut_off}

abbrev target : SocketAddr
target = record { ip = v4 (203 ∷ 0 ∷ 113 ∷ 1 ∷ []); port = 443 }

abbrev creds : Credentials
creds = record { username = codes "user"; password = codes "pass" }

-- The server asks for credentials, grants the request and names a bound domain of one byte.
abbrev reply : ServerReply
reply = record {
  auth = some 1;
  reply_version = 5;
  reserved = 0;
  bound = bound_domain 1 (b'x' ∷ 31 ∷ 144 ∷ []);
}

abbrev start : Stream
start = record { incoming = server_bytes reply ++ codes "data"; sent = []; writable = 3; torn = 2 }

abbrev end : Stream
end = record {
  incoming = codes "data";
  sent = client_bytes target (some creds) (some 1);
  writable = 0;
  torn = 2;
}

reply-IsReply : IsReply (some creds) reply
reply-IsReply = record { can_auth = omega arith; is_bound = refl }

handshake_complete_example : client_handshake target (some creds) start ≡ (ok tt, end)
handshake_complete_example =
    handshake_complete 2 target (some creds) reply (codes "data") [] 0 reply-IsReply

handshake_sound_example :
    (r : ServerReply) × IsReply (some creds) r
    × Exchange start end (server_bytes r) (client_bytes target (some creds) r.auth)
handshake_sound_example =
    handshake_sound target (some creds) start end tt
      (handshake_complete 2 target (some creds) reply (codes "data") [] 0 reply-IsReply)

read_request_example :
    read_request (connect_message target ++ codes "data") ≡ some (target, codes "data")
read_request_example = read_request-connect_message target (codes "data") (omega arith)

read_auth_example : read_auth (auth_message creds ++ codes "data") ≡ some (creds, codes "data")
read_auth_example = read_auth-auth_message creds (codes "data") (omega arith)

-- A server that selects no authentication, and then rejects the request.
abbrev rejecting : Stream
rejecting = record { incoming = 5 ∷ 0 ∷ 5 ∷ 2 ∷ 0 ∷ []; sent = []; writable = 3; torn = 2 }

credentials_withheld_example :
    let out = (client_handshake target (some creds) rejecting).1.sent in
    (p : Bytes) × (rest : Bytes) × (out ≡ [] ++ p)
    × (greeting_message (some creds) ++ connect_message target ≡ p ++ rest)
credentials_withheld_example = credentials_withheld target (some creds) rejecting (omega arith)

-- The connection fails in the middle of the request.
failing :
    (client_handshake target none (record rejecting { writable = 1 })).1.sent
    ≡ 5 ∷ 1 ∷ 0 ∷ 5 ∷ 1 ∷ []
unfolding client_handshake greeting_message connect_message
failing = refl

abbrev with_more : Stream
with_more = record rejecting { incoming = rejecting.incoming ++ codes "data" }

-- A server that has rejected the request, and goes on sending.
handshake_settles_example :
    (outcome (client_handshake target (some creds) rejecting) ≡ err read_failed)
    ⊎ (outcome (client_handshake target (some creds) with_more)
        ≡ extend (outcome (client_handshake target (some creds) rejecting)) (codes "data"))
handshake_settles_example =
    handshake_settles target target (some creds) rejecting.incoming (codes "data") 2 2 [] [] 0 0

-- The answer of the first server, without its last byte and the proxied data.
abbrev cut_answer : Bytes
cut_answer = 5 ∷ 2 ∷ 1 ∷ 0 ∷ 5 ∷ 0 ∷ 0 ∷ 3 ∷ 1 ∷ b'x' ∷ 31 ∷ []

handshake_cut_off_example :
    (client_handshake target
      (some creds)
      (record { incoming = cut_answer; sent = []; writable = 3; torn = 2 })).0
    ≡ err read_failed
handshake_cut_off_example =
    handshake_cut_off target target (some creds) cut_answer (144 ∷ codes "data") (codes "data") 2 2
      [] [] 0 0
      (ap outcome
        (handshake_complete 2 target (some creds) reply (codes "data") [] 0 reply-IsReply))
      (omega arith)

answers :
    Path
      (List Answer)
      (map (answer_of (some creds)) (
        (5 ∷ 0 ∷ 5 ∷ 2 ∷ 0 ∷ [])
        ∷ (5 ∷ 0 ∷ 5 ∷ 0 ∷ 0 ∷ 3 ∷ 1 ∷ 9 ∷ 1 ∷ 2 ∷ 7 ∷ [])
        ∷ (5 ∷ 0 ∷ 5 ∷ 0 ∷ 0 ∷ 3 ∷ 1 ∷ 9 ∷ 1 ∷ [])
        ∷ (5 ∷ 0 ∷ 5 ∷ 0 ∷ 0 ∷ 9 ∷ [])
        ∷ (4 ∷ 0 ∷ [])
        ∷ (5 ∷ 2 ∷ 1 ∷ 1 ∷ [])
        ∷ []))
      (err (connect_rejected "connection not allowed by ruleset")
        ∷ ok (7 ∷ [])
        ∷ err read_failed
        ∷ err (unsupported_atyp 9)
        ∷ err (version_mismatched 4)
        ∷ err auth_rejected
        ∷ [])
unfolding reply_str
answers = refl

rejected :
    (client_handshake target (some creds) rejecting).0
    ≡ err (connect_rejected "connection not allowed by ruleset")
unfolding client_handshake
rejected = refl

-- A server that wants credentials from a client that has none.
no_credentials :
    (client_handshake target none
      (record { incoming = 5 ∷ 2 ∷ []; sent = []; writable = 3; torn = 2 })).0
    ≡ err auth_required
unfolding client_handshake
no_credentials = refl

request_bytes : connect_message target ≡ 5 ∷ 1 ∷ 0 ∷ 1 ∷ 203 ∷ 0 ∷ 113 ∷ 1 ∷ 1 ∷ 187 ∷ []
unfolding connect_message
request_bytes = refl

-- A server at "h:7" that answers like the first one, over a socket that does not know its address.
abbrev proxy : Socks5Proxy
proxy = record { host = codes "h"; port = 7; creds = some creds }

abbrev server : TcpConn
server = record { stream = start; local_addr = none }

abbrev dial : Bytes → Option TcpConn
dial addr = some server

abbrev upstream : Upstream
upstream = record { stream = end; local_addr = record { ip = target.ip; port = 0 } }

connects : connect dial proxy target ≡ ok upstream
unfolding connect handshake finish local_or client_handshake
connects = refl

connect_sound_example :
    (c : TcpConn) × (dial (server_addr proxy) ≡ some c) × Granted proxy target c upstream
connect_sound_example = connect_sound dial proxy target upstream connects
