-- ===== src/Relay/Examples.antt =====
-- Tests of src/relay.rs, and its theorems at concrete runs.
use smoltcp_socks.Common.{
  ◌≡◌, ◌≢◌, refl, Bool, true, false, List, [], ◌∷◌, ◌++◌, none, some, Bytes, codes, ok, arith, All,
}
use smoltcp_socks.Net.{v4, SocketAddr}
use smoltcp_socks.Netstack.Vconn.{VConn, destination}
use smoltcp_socks.Relay.{
  done, waiting, failed, UpRound, DownRound, copy_vconn_to, copy_to_vconn, zero_write, write_out,
  pipe, Piped, wrote, flush, upstream_read,
}
use smoltcp_socks.Relay.Upstream.{Poll, UpChunk, relayed_up, relayed_up_carries}
use smoltcp_socks.Relay.Steady.{relayed_down-IsSteady}
use smoltcp_socks.Relay.Downstream.{Chunk, relayed_down, relayed_down_queues}
use smoltcp_socks.Netstack.Socket.{established}
use smoltcp_socks.Netstack.Toy.{Toy, toy, toy_laws}
use smoltcp_socks.Relay.Copy.{
  up_never_shuts, write_out_ends, server_ends, down_completes, client_ends, up_completes,
  down_leaves_open, written, IsKept,
}

-- The client sends "GET ", then "/", and ends.
abbrev up_rounds : List UpRound
up_rounds =
    record { read = ok (codes "GET "); write_ok = true }
    ∷ record { read = ok (codes "/"); write_ok = true }
    ∷ record { read = ok []; write_ok = true }
    ∷ []

up_never_shuts_example : All IsKept (copy_vconn_to up_rounds).1
up_never_shuts_example = up_never_shuts up_rounds

write_out_ends_example :
    write_out (codes "hello") (ok 3 ∷ ok 1 ∷ ok 1 ∷ ok 9 ∷ ok 1 ∷ []) ≡ (done, codes "hello")
write_out_ends_example =
    write_out_ends (codes "hello") (ok 3 ∷ ok 1 ∷ ok 1 ∷ ok 9 ∷ ok 1 ∷ []) (omega arith)
      (omega arith)

-- The server's connection fails after "hello".
abbrev cut_rounds : List DownRound
cut_rounds =
    record { read = some (codes "hello"); writes = ok 5 ∷ [] }
    ∷ record { read = none; writes = [] }
    ∷ []

down_leaves_open_example : (copy_to_vconn cut_rounds).half_closed ≡ false
unfolding copy_to_vconn
down_leaves_open_example = down_leaves_open cut_rounds (λ e. cc)

-- The server sends "hello" and ends.
abbrev hello : List DownRound
hello = record { read = some (codes "hello"); writes = ok 3 ∷ ok 1 ∷ ok 1 ∷ ok 9 ∷ ok 1 ∷ [] } ∷ []

down_completes_example :
    copy_to_vconn (hello ++ server_ends)
    ≡ record { outcome = done; accepted = codes "hello"; half_closed = true }
down_completes_example =
    down_completes hello ((b'h', codes "ello", refl, omega arith, omega arith), tt)

-- The client sends "GET " and "/".
abbrev request : List UpRound
request =
    record { read = ok (codes "GET "); write_ok = true }
    ∷ record { read = ok (codes "/"); write_ok = true }
    ∷ []

up_completes_example :
    ((copy_vconn_to (request ++ client_ends)).0 ≡ done)
    × (written (copy_vconn_to (request ++ client_ends)).1 ≡ codes "GET /")
up_completes_example =
    up_completes request ((b'G', codes "ET ", refl, refl), ((b'/', [], refl, refl), tt))

abbrev vconn : VConn
vconn = record {
  meta = record {
    src = record { ip = v4 (10 ∷ 0 ∷ 0 ∷ 2 ∷ []); port = 50000 };
    dst = record { ip = v4 (203 ∷ 0 ∷ 113 ∷ 1 ∷ []); port = 443 };
  };
  cmd = 0;
}

abbrev reachable : SocketAddr → Bool
reachable a = true

abbrev piped : Piped
piped = record {
  dialled = record { ip = v4 (203 ∷ 0 ∷ 113 ∷ 1 ∷ []); port = 443 };
  up = (done, wrote (codes "GET ") ∷ wrote (codes "/") ∷ flush ∷ []);
  down = record { outcome = failed upstream_read; accepted = codes "hello"; half_closed = false };
  closed = true;
}

pipe_runs : pipe reachable vconn up_rounds cut_rounds ≡ ok piped
unfolding pipe destination copy_vconn_to copy_to_vconn
pipe_runs = refl

-- The client's socket takes four bytes at a time, and smoltcp makes room for four again.
abbrev socket : Toy
socket = record {
  state = established;
  local = none;
  remote = none;
  rx = [];
  tx = codes "<";
  room = 4;
  receiving = true;
  sending = true;
}

abbrev make_room : Toy → Toy
make_room s = record s { room = 4 }

abbrev chunks : List (Chunk toy)
chunks =
    record { read = some (codes "hello"); polls = make_room ∷ make_room ∷ [] }
    ∷ record { read = some []; polls = [] }
    ∷ []

relayed_down_runs :
    (relayed_down toy chunks socket).0
    ≡ record { read = some (codes "hello"); writes = ok 4 ∷ ok 1 ∷ [] }
      ∷ record { read = some []; writes = [] }
      ∷ []
unfolding relayed_down
relayed_down_runs = refl

relayed_down_queues_example :
    (relayed_down toy chunks socket).1.tx
    ≡ codes "<" ++ (copy_to_vconn (relayed_down toy chunks socket).0).accepted
relayed_down_queues_example =
    relayed_down_queues toy toy_laws chunks socket (((λ s. refl), ((λ s. refl), tt)), (tt, tt))

relayed_down-IsSteady_example :
    (copy_to_vconn (relayed_down toy chunks socket).0).outcome ≢ failed zero_write
relayed_down-IsSteady_example = relayed_down-IsSteady toy toy_laws chunks socket

-- The client sends "GET " while the relay reads, then "/" while it reads again.
abbrev receives : Bytes → Poll toy
receives b = record { poll = λ s. record s { rx = s.rx ++ b }; arrives = λ s. b }

abbrev up_chunks : List (UpChunk toy)
up_chunks =
    record { polls = receives [] ∷ receives (codes "GET ") ∷ []; write_ok = true }
    ∷ record { polls = receives (codes "/") ∷ []; write_ok = true }
    ∷ record { polls = []; write_ok = true }
    ∷ []

relayed_up_runs :
    copy_vconn_to (relayed_up toy up_chunks socket).0
    ≡ (waiting, wrote (codes "GET ") ∷ wrote (codes "/") ∷ [])
unfolding relayed_up copy_vconn_to
relayed_up_runs = refl

relayed_up_carries_example :
    codes "GET /"
    ≡ written (copy_vconn_to (relayed_up toy up_chunks socket).0).1
      ++ (relayed_up toy up_chunks socket).1.rx
unfolding relayed_up copy_vconn_to
relayed_up_carries_example =
    relayed_up_carries toy toy_laws up_chunks socket
      (((λ s. refl), ((λ s. refl), tt)), (((λ s. refl), tt), (tt, tt))) (λ e. cc)
