-- ===== src/Relay/Session/Examples.antt =====
-- The theorems on a relay of src/relay.rs beside its connection, at a concrete run: two bytes in each
-- direction.
use smoltcp_socks.Common.{refl, ◌≡◌, true, [], ◌∷◌, none, some, codes, ok, ◌≤◌, length}
use smoltcp_socks.Net.{v4}
use smoltcp_socks.Netstack.Conn.{new, service_io, handle_cmd, round}
use smoltcp_socks.Netstack.Vconn.{read, write}
use smoltcp_socks.Netstack.Socket.{established}
use smoltcp_socks.Netstack.Toy.{Toy, toy, toy_laws}
use smoltcp_socks.Relay.{relay_buf}
use smoltcp_socks.Relay.Session.Trace.{up_rounds, down_rounds}
use smoltcp_socks.Relay.Session.{
  awaits_read, awaits_write, piping, read_answered, source_read, Session, opened, deliver, delivers,
  served, route_up, route_down, route_stage,
}
use smoltcp_socks.Relay.Session.Steps.{
  Call, Reach, here, next, dials, asks, gets_read, writes_upstream, reads_upstream, takes, network,
}
use smoltcp_socks.Relay.Session.Delivery.{relay-IsStreamed}
use smoltcp_socks.Relay.Session.Flight.{IsOrderly}
use smoltcp_socks.Relay.Session.Orderly.{relay-IsOrderly}
use smoltcp_socks.Relay.Session.Service.{serviced, IsAnswered, service-IsAnswered}
use smoltcp_socks.Relay.Session.Streams.{IsStreamed}

abbrev quiet_socket : Toy
quiet_socket = record {
  state = established;
  local = some (record { addr = v4 (203 ∷ 0 ∷ 113 ∷ 1 ∷ []); port = 443 });
  remote = some (record { addr = v4 (10 ∷ 0 ∷ 0 ∷ 2 ∷ []); port = 50000 });
  rx = [];
  tx = [];
  room = 4;
  receiving = true;
  sending = true;
}

abbrev first : Session toy
unfolding new
first = opened toy (new 0) quiet_socket

-- The upward loop has written its bytes, and the downward one has not yet seen its answer.
abbrev last : Session toy
unfolding new
last = record first {
  stage = piping;
  down = awaits_write (codes "ab") 1 (some (ok 2));
  next_reply = 2;
  socket = record quiet_socket { tx = codes "ab"; room = 2 };
  arrived = codes "hi";
  carried = codes "hi";
  source = codes "ab";
}

unfoldable run : Reach toy (opened toy (new 0) quiet_socket) last
unfolding new source_read read_answered served delivers deliver route_up route_down route_stage
    round handle_cmd service_io last
run =
    next
      (next
        (next
          (next
            (next
              (next
                (next
                  (next (next here (dials true refl refl))
                    (reads_upstream (some (codes "ab")) refl refl refl))
                  (asks (read relay_buf 0) _ _ (new 0) (Call.calls_read refl refl refl refl refl)
                    refl refl refl))
                (asks (write (codes "ab") 1) _ _ (new 0)
                  (Call.calls_write (codes "ab") refl refl refl refl refl) refl refl refl))
              (network (record quiet_socket { rx = codes "hi" }) (codes "hi") refl refl refl))
            (takes (new 0) (read relay_buf 0) (write (codes "ab") 1 ∷ []) refl refl refl))
          (takes (new 0) (write (codes "ab") 1) [] refl refl refl))
        (gets_read 0 (some (ok (codes "hi"))) (ok (codes "hi")) refl refl refl))
      (writes_upstream (codes "hi") refl refl)

relay-IsOrderly_example : IsOrderly toy last × (length last.commands ≤ 2)
relay-IsOrderly_example = relay-IsOrderly toy toy_laws 0 quiet_socket last run

-- The rounds of that run: the upward one is whole, the downward one waits for its write.
run_rounds :
    (up_rounds toy run ≡ record { read = ok (codes "hi"); write_ok = true } ∷ [])
    × (down_rounds toy run ≡ record { read = some (codes "ab"); writes = [] } ∷ [])
unfolding run
run_rounds = (refl, refl)

relay-IsStreamed_example : IsStreamed toy [] last
relay-IsStreamed_example = relay-IsStreamed toy toy_laws 0 quiet_socket last run

-- The upward loop has sent its first read.
abbrev asking : Session toy
unfolding new
asking = record first {
  stage = piping;
  up = awaits_read 0 none;
  commands = read relay_buf 0 ∷ [];
  next_reply = 1;
}

first_call : Reach toy (opened toy (new 0) quiet_socket) asking
unfolding new asking
first_call =
    next (next here (dials true refl refl)) (
      asks (read relay_buf 0) _ _ (new 0) (Call.calls_read refl refl refl refl refl) refl refl refl)

service-IsAnswered_example :
    Reach toy (opened toy (new 0) quiet_socket) (serviced toy (new 0) asking)
    × IsAnswered toy (serviced toy (new 0) asking)
unfolding asking
service-IsAnswered_example =
    service-IsAnswered toy toy_laws 0 quiet_socket asking (new 0) first_call refl
