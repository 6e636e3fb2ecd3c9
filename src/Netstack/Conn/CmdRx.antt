-- ===== src/Netstack/Conn/CmdRx.antt =====
-- The command channel of src/netstack/actor.rs's `ConnState` through a service.
use smoltcp_socks.Common.{ℕ, ◌≡◌, refl, ◌∙◌, Bool, List, [], ◌∷◌, arith}
use smoltcp_socks.Netstack.Vconn.{ConnCmd, read, write, close_write, close}
use smoltcp_socks.Netstack.Socket.{Tcp}
use smoltcp_socks.Netstack.Conn.{ConnState, Arrival, service, service_io, handle_cmd, round, drain}

module _ (t : Tcp) where
  handle_cmd-cmd_rx :
      (c : ConnState) (s : t.Socket) (m : ConnCmd) → (handle_cmd t c s m).0.cmd_rx ≡ c.cmd_rx
  unfolding handle_cmd
  handle_cmd-cmd_rx c s (read n i) = ground arith
  handle_cmd-cmd_rx c s (write d i) = ground arith
  handle_cmd-cmd_rx c s (close_write i) = refl
  handle_cmd-cmd_rx c s (close i) = refl

  drain-cmd_rx :
      (l : List Arrival) (c : ConnState) (s : t.Socket) → (drain t c s l).0.cmd_rx ≡ c.cmd_rx
  unfolding drain round service_io
  drain-cmd_rx [] c s = refl
  drain-cmd_rx (a ∷ l) c s =
      let (c1, s1, _) = round t c s a in drain-cmd_rx l c1 s1 ∙ handle_cmd-cmd_rx c s a.cmd

  -- A connection keeps its command channel.
  pub service-cmd_rx :
      (gone : ℕ → Bool) (l : List Arrival) (c : ConnState) (s : t.Socket)
      → (service t gone l c s).0.cmd_rx ≡ c.cmd_rx
  unfolding service service_io
  service-cmd_rx gone l c s = let (c1, s1, _) = service_io t gone c s in drain-cmd_rx l c1 s1
