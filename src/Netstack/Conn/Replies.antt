-- ===== src/Netstack/Conn/Replies.antt =====
-- The reply channels of src/netstack/actor.rs's `ConnState::service`: which are resolved, and which
-- are refused.
use smoltcp_socks.Common.{
  ℕ, ◌+◌, ◌≤◌, ◌≡◌, refl, Bool, List, [], ◌∷◌, ◌++◌, Option, none, some, Bytes, arith, min, ◌==◌,
  if◌then◌else◌, Result, ok, err,
}
use smoltcp_socks.Netstack.Vconn.{ConnCmd, read, write, close_write, close, io}
use smoltcp_socks.Netstack.Socket.{Tcp, RecvError, finished, invalid_state}
use smoltcp_socks.Netstack.Conn.{
  PendingRead, PendingWrite, ConnState, Event, read_reply, write_reply, close_reply, dropped,
  Arrival, Out, read_result, write_result, serve_read, serve_write, service_io, handle_cmd, round,
  drain, service, fail_pending,
}

abbrev hit : ℕ → ℕ → ℕ
hit i j = if i == j then 1 else 0

abbrev event_id : Event → ℕ
event_id (read_reply i r) = i
event_id (write_reply i r) = i
event_id (close_reply i r) = i
event_id (dropped i) = i

-- How often the log resolves the reply channel `i`: by an answer, or by dropping its sender.
abbrev pub resolved : ℕ → List Event → ℕ
resolved i [] = 0
resolved i (e ∷ l) = hit i (event_id e) + resolved i l

abbrev waiting_read : ℕ → Option PendingRead → ℕ
waiting_read i none = 0
waiting_read i (some r) = hit i r.reply

abbrev waiting_write : ℕ → Option PendingWrite → ℕ
waiting_write i none = 0
waiting_write i (some w) = hit i w.reply

-- How often the reply channel `i` stands in the connection's pending requests.
abbrev pub waiting : ℕ → ConnState → ℕ
waiting i c = waiting_read i c.read + waiting_write i c.write

abbrev cmd_id : ConnCmd → ℕ
cmd_id (read max_len i) = i
cmd_id (write body i) = i
cmd_id (close_write i) = i
cmd_id (close i) = i

-- How often the commands ask for an answer on the reply channel `i`.
abbrev pub asked : ℕ → List Arrival → ℕ
asked i [] = 0
asked i (a ∷ l) = hit i (cmd_id a.cmd) + asked i l

abbrev refusal : ℕ → Event → ℕ
refusal i (read_reply j (err (io e))) = hit i j
refusal i (write_reply j (err (io e))) = hit i j
refusal i e = 0

-- How often the log refuses the reply channel `i`: with `WouldBlock`, since another request of the
-- kind is pending.
abbrev pub refused : ℕ → List Event → ℕ
refused i [] = 0
refused i (e ∷ l) = refusal i e + refused i l

refused-append : (i : ℕ) (k l : List Event) → refused i (k ++ l) ≡ refused i k + refused i l
refused-append i [] l = omega arith
refused-append i (e ∷ k) l = omega (arith, refused-append i k l)

resolved-append : (i : ℕ) (k l : List Event) → resolved i (k ++ l) ≡ resolved i k + resolved i l
resolved-append i [] l = omega arith
resolved-append i (e ∷ k) l = omega (arith, resolved-append i k l)

module _ (t : Tcp) (i : ℕ) where
  read_result_resolves :
      (reply : ℕ) (x : Result Bytes RecvError × t.Socket)
      → waiting_read i (read_result t reply x).0 + resolved i (read_result t reply x).2
        ≡ hit i reply
  unfolding read_result
  read_result_resolves reply (ok buf, s) = omega arith
  read_result_resolves reply (err finished, s) = omega arith
  read_result_resolves reply (err invalid_state, s) = omega arith

  write_result_resolves :
      (reply : ℕ) (x : Option ℕ × t.Socket)
      → waiting_write i (write_result t reply x).0 + resolved i (write_result t reply x).2
        ≡ hit i reply
  unfolding write_result
  write_result_resolves reply (some n, s) = omega arith
  write_result_resolves reply (none, s) = omega arith

  serve_read_resolves :
      (gone : ℕ → Bool) (o : Option PendingRead) (s : t.Socket)
      → waiting_read i (serve_read t gone o s).0 + resolved i (serve_read t gone o s).2
        ≡ waiting_read i o
  unfolding serve_read
  serve_read_resolves gone none s = omega arith
  serve_read_resolves gone (some r) s =
      ground (arith, read_result_resolves r.reply (t.recv_slice s (min r.max_len (t.recv_queue s))))

  serve_write_resolves :
      (gone : ℕ → Bool) (o : Option PendingWrite) (s : t.Socket)
      → waiting_write i (serve_write t gone o s).0 + resolved i (serve_write t gone o s).2
        ≡ waiting_write i o
  unfolding serve_write
  serve_write_resolves gone none s = omega arith
  serve_write_resolves gone (some w) s =
      ground (arith, write_result_resolves w.reply (t.send_slice s w.body))

  -- The senders that stand in a step's result: still pending, or resolved by its log.
  abbrev after : Out t → ℕ
  after (c, s, l) = waiting i c + resolved i l

  service_io_resolves :
      (gone : ℕ → Bool) (c : ConnState) (s : t.Socket) → after (service_io t gone c s) ≡ waiting i c
  unfolding service_io
  service_io_resolves gone c s =
      let r = serve_read t gone c.read s in
      let w = serve_write t gone c.write r.1 in
      omega (
        arith,
        serve_read_resolves gone c.read s,
        serve_write_resolves gone c.write r.1,
        resolved-append i r.2 w.2,
      )

  handle_cmd_resolves :
      (c : ConnState) (s : t.Socket) (cmd : ConnCmd)
      → after (handle_cmd t c s cmd) ≡ hit i (cmd_id cmd) + waiting i c
  unfolding handle_cmd
  handle_cmd_resolves c s (read max_len reply) = ground arith
  handle_cmd_resolves c s (write body reply) = ground arith
  handle_cmd_resolves c s (close_write reply) = omega arith
  handle_cmd_resolves c s (close reply) = omega arith

  round_resolves :
      (c : ConnState) (s : t.Socket) (a : Arrival)
      → after (round t c s a) ≡ hit i (cmd_id a.cmd) + waiting i c
  unfolding round
  round_resolves c s a =
      let h = handle_cmd t c s a.cmd in
      let o = service_io t a.gone h.0 h.1 in
      omega (
        arith,
        handle_cmd_resolves c s a.cmd,
        service_io_resolves a.gone h.0 h.1,
        resolved-append i h.2 o.2,
      )

  drain_resolves :
      (c : ConnState) (s : t.Socket) (l : List Arrival)
      → after (drain t c s l) ≡ asked i l + waiting i c
  unfolding drain
  drain_resolves c s [] = omega arith
  drain_resolves c s (a ∷ l) =
      let o = round t c s a in
      let d = drain t o.0 o.1 l in
      omega (arith, round_resolves c s a, drain_resolves o.0 o.1 l, resolved-append i o.2 d.2)

  read_result_refuses :
      (reply : ℕ) (x : Result Bytes RecvError × t.Socket) → refused i (read_result t reply x).2 ≡ 0
  unfolding read_result
  read_result_refuses reply (ok buf, s) = refl
  read_result_refuses reply (err finished, s) = refl
  read_result_refuses reply (err invalid_state, s) = refl

  write_result_refuses :
      (reply : ℕ) (x : Option ℕ × t.Socket) → refused i (write_result t reply x).2 ≡ 0
  unfolding write_result
  write_result_refuses reply (some n, s) = refl
  write_result_refuses reply (none, s) = refl

  serve_read_refuses :
      (gone : ℕ → Bool) (o : Option PendingRead) (s : t.Socket)
      → refused i (serve_read t gone o s).2 ≡ 0
  unfolding serve_read
  serve_read_refuses gone none s = refl
  serve_read_refuses gone (some r) s =
      ground (arith, read_result_refuses r.reply (t.recv_slice s (min r.max_len (t.recv_queue s))))

  serve_write_refuses :
      (gone : ℕ → Bool) (o : Option PendingWrite) (s : t.Socket)
      → refused i (serve_write t gone o s).2 ≡ 0
  unfolding serve_write
  serve_write_refuses gone none s = refl
  serve_write_refuses gone (some w) s =
      ground (arith, write_result_refuses w.reply (t.send_slice s w.body))

  -- What is served is never refused.
  service_io_refuses :
      (gone : ℕ → Bool) (c : ConnState) (s : t.Socket) → refused i (service_io t gone c s).2 ≡ 0
  unfolding service_io
  service_io_refuses gone c s =
      let r = serve_read t gone c.read s in
      let w = serve_write t gone c.write r.1 in
      omega (
        arith,
        serve_read_refuses gone c.read s,
        serve_write_refuses gone c.write r.1,
        refused-append i r.2 w.2,
      )

  -- Only the command at hand is refused.
  handle_cmd_refuses :
      (c : ConnState) (s : t.Socket) (cmd : ConnCmd)
      → refused i (handle_cmd t c s cmd).2 ≤ hit i (cmd_id cmd)
  unfolding handle_cmd
  handle_cmd_refuses c s (read max_len reply) = ground arith
  handle_cmd_refuses c s (write body reply) = ground arith
  handle_cmd_refuses c s (close_write reply) = omega arith
  handle_cmd_refuses c s (close reply) = omega arith

  drain_refuses :
      (c : ConnState) (s : t.Socket) (l : List Arrival) → refused i (drain t c s l).2 ≤ asked i l
  unfolding drain round
  drain_refuses c s [] = omega arith
  drain_refuses c s (a ∷ l) =
      let h = handle_cmd t c s a.cmd in
      let o = service_io t a.gone h.0 h.1 in
      let d = drain t o.0 o.1 l in
      omega (
        arith,
        handle_cmd_refuses c s a.cmd,
        service_io_refuses a.gone h.0 h.1,
        drain_refuses o.0 o.1 l,
        refused-append i h.2 o.2,
        refused-append i (h.2 ++ o.2) d.2,
      )

  -- Each reply channel is accounted for, on every path: a channel that was pending before, or comes
  -- with a command, is after the service either still pending or resolved in the log, as often as it
  -- was there; and a channel is refused with `WouldBlock` at most as often as the commands of this
  -- service name it, so that a request that was already pending, on a channel that no command names,
  -- is never refused for a new one.
  pub service_resolves :
      (gone : ℕ → Bool) (l : List Arrival) (c : ConnState) (s : t.Socket)
      → let (c', s', log) = service t gone l c s in
        (asked i l + waiting i c ≡ resolved i log + waiting i c') × (refused i log ≤ asked i l)
  unfolding service
  service_resolves gone l c s =
      let o = service_io t gone c s in
      let d = drain t o.0 o.1 l in
      (
        omega (
          arith,
          service_io_resolves gone c s,
          drain_resolves o.0 o.1 l,
          resolved-append i o.2 d.2,
        ),
        omega
            (arith, service_io_refuses gone c s, drain_refuses o.0 o.1 l, refused-append i o.2 d.2),
      )

-- `fail_pending` resolves what is pending and leaves nothing.
pub fail_pending_resolves :
    (i : ℕ) (c : ConnState)
    → (resolved i (fail_pending c).1 ≡ waiting i c) × (waiting i (fail_pending c).0 ≡ 0)
unfolding fail_pending
fail_pending_resolves i c = ground arith
