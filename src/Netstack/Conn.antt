-- ===== src/Netstack/Conn.antt =====
-- src/netstack/actor.rs, the part of one connection: `ConnState`. The results of the successive
-- `try_recv` calls on the command channel, and which reply channels the callers have given up, are
-- the environment's choice and enter as arguments. What becomes of each reply sender is logged.
pub mod CmdRx
pub mod Replies
pub mod Settled
pub mod Ends
pub mod Transfer
pub mod Writes
pub mod Reads
use smoltcp_socks.Common.{
  ℕ, ◌+◌, ◌≡◌, refl, Bool, true, false, not, ◌&&◌, List, [], ◌∷◌, ◌++◌, Option, none, some, Bytes,
  min, ◌==◌, if◌then◌else◌, Result, ok, err, is_some, is_empty,
}
use smoltcp_socks.Netstack.Vconn.{
  ConnCmd, read, write, close_write, close, VConnError, closed, io, would_block,
}
use smoltcp_socks.Netstack.Socket.{Tcp, RecvError, finished, invalid_state}

pub record PendingRead : Type 0 where
  pub max_len : ℕ
  pub reply : ℕ

pub record PendingWrite : Type 0 where
  pub body : Bytes
  pub reply : ℕ

pub record ConnState : Type 0 where
  pub cmd_rx : ℕ
  pub read : Option PendingRead
  pub write : Option PendingWrite

-- The fate of a reply sender.
pub data Event : Type 0 where
  read_reply : ℕ → Result Bytes VConnError → Event
  write_reply : ℕ → Result ℕ VConnError → Event
  close_reply : ℕ → Result (Unit {0}) VConnError → Event
  dropped : ℕ → Event

-- One command from `try_recv`, and the reply channels found closed by the service that follows.
pub record Arrival : Type 0 where
  pub cmd : ConnCmd
  pub gone : ℕ → Bool

-- `ConnState::new`
unfoldable pub new : ℕ → ConnState
new cmd_rx = record { cmd_rx = cmd_rx; read = none; write = none }

module _ (t : Tcp) where
  abbrev pub ReadOut : Type 0
  ReadOut = Option PendingRead × t.Socket × List Event

  abbrev pub WriteOut : Type 0
  WriteOut = Option PendingWrite × t.Socket × List Event

  abbrev pub Out : Type 0
  Out = ConnState × t.Socket × List Event

  read_result : ℕ → Result Bytes RecvError × t.Socket → ReadOut
  read_result reply (ok buf, s) = (none, s, read_reply reply (ok buf) ∷ [])
  read_result reply (err finished, s) = (none, s, read_reply reply (ok []) ∷ [])
  read_result reply (err invalid_state, s) = (none, s, read_reply reply (err closed) ∷ [])

  write_result : ℕ → Option ℕ × t.Socket → WriteOut
  write_result reply (some n, s) = (none, s, write_reply reply (ok n) ∷ [])
  write_result reply (none, s) = (none, s, write_reply reply (err closed) ∷ [])

  -- The first half of `service_io`.
  unfoldable pub serve_read : (ℕ → Bool) → Option PendingRead → t.Socket → ReadOut
  unfolding read_result
  serve_read gone none s = (none, s, [])
  serve_read gone (some r) s =
      if gone r.reply
      then (none, s, dropped r.reply ∷ [])
      else if r.max_len == 0
      then (none, s, read_reply r.reply (ok []) ∷ [])
      else if not (t.can_recv s) && t.may_recv s
      then (some r, s, [])
      else read_result r.reply (t.recv_slice s (min r.max_len (t.recv_queue s)))

  -- The second half of `service_io`.
  unfoldable pub serve_write : (ℕ → Bool) → Option PendingWrite → t.Socket → WriteOut
  unfolding write_result
  serve_write gone none s = (none, s, [])
  serve_write gone (some w) s =
      if gone w.reply
      then (none, s, dropped w.reply ∷ [])
      else if is_empty w.body
      then (none, s, write_reply w.reply (ok 0) ∷ [])
      else if not (t.can_send s) && t.may_send s
      then (some w, s, [])
      else write_result w.reply (t.send_slice s w.body)

  unfoldable pub service_io : (ℕ → Bool) → ConnState → t.Socket → Out
  unfolding serve_read serve_write
  service_io gone c s =
      let (r, s1, l1) = serve_read gone c.read s in
      let (w, s2, l2) = serve_write gone c.write s1 in
      (record c { read = r; write = w }, s2, l1 ++ l2)

  -- The `match cmd` of `service`.
  unfoldable pub handle_cmd : ConnState → t.Socket → ConnCmd → Out
  handle_cmd c s (read max_len reply) =
      if is_some c.read
      then (c, s, read_reply reply (err (io (would_block "a read is already pending"))) ∷ [])
      else (record c { read = some (record { max_len = max_len; reply = reply }) }, s, [])
  handle_cmd c s (write body reply) =
      if is_some c.write
      then (c, s, write_reply reply (err (io (would_block "a write is already pending"))) ∷ [])
      else (record c { write = some (record { body = body; reply = reply }) }, s, [])
  handle_cmd c s (close_write reply) = (c, t.close s, close_reply reply (ok tt) ∷ [])
  handle_cmd c s (close reply) = (c, t.abort s, close_reply reply (ok tt) ∷ [])

  -- One round of the `while let` loop of `service`.
  unfoldable pub round : ConnState → t.Socket → Arrival → Out
  unfolding handle_cmd service_io
  round c s a =
      let (c1, s1, l1) = handle_cmd c s a.cmd in
      let (c2, s2, l2) = service_io a.gone c1 s1 in (c2, s2, l1 ++ l2)

  -- The loop ends when `try_recv` finds no command.
  unfoldable pub drain : ConnState → t.Socket → List Arrival → Out
  unfolding round
  drain c s [] = (c, s, [])
  drain c s (a ∷ rest) =
      let (c1, s1, l1) = round c s a in let (c2, s2, l2) = drain c1 s1 rest in (c2, s2, l1 ++ l2)

  unfoldable pub service : (ℕ → Bool) → List Arrival → ConnState → t.Socket → Out
  unfolding service_io drain
  service gone arrivals c s =
      let (c1, s1, l1) = service_io gone c s in
      let (c2, s2, l2) = drain c1 s1 arrivals in (c2, s2, l1 ++ l2)

fail_read : Option PendingRead → List Event
fail_read none = []
fail_read (some r) = read_reply r.reply (err closed) ∷ []

fail_write : Option PendingWrite → List Event
fail_write none = []
fail_write (some w) = write_reply w.reply (err closed) ∷ []

unfoldable pub fail_pending : ConnState → ConnState × List Event
unfolding fail_read fail_write
fail_pending c = (record c { read = none; write = none }, fail_read c.read ++ fail_write c.write)
