-- ===== src/Netstack/Conn/Ends.antt =====
-- How src/netstack/actor.rs's `ConnState::service` ends a connection's streams: what a close does to
-- pending requests, and the answers that a relay reads as the end of a stream.
use smoltcp_socks.Common.{
  ℕ, ◌≡◌, ◌⊎◌, inr, refl, ap, ◌∙◌, Bool, false, List, [], ◌∷◌, ◌++◌, Option, none, some, Bytes,
  arith, min, Result, ok, err,
}
use smoltcp_socks.Netstack.Vconn.{close_write, close}
use smoltcp_socks.Netstack.Socket.{Tcp, TcpLaws, RecvError, finished, invalid_state}
use smoltcp_socks.Netstack.Conn.{
  PendingRead, PendingWrite, ConnState, read_reply, write_reply, Arrival, read_result, write_result,
  serve_read, serve_write, service_io, handle_cmd, round, drain, service,
}
use smoltcp_socks.Netstack.Conn.Settled.{serve_read_ended, serve_write_ended, serve_read_keeps_send}

module _ (t : Tcp) where
  -- The state of the connection and the socket behind all commands but the last.
  drain-append :
      (c : ConnState) (s : t.Socket) (l : List Arrival) (a : Arrival)
      → let (c1, s1, l1) = drain t c s l in (drain t c s (l ++ a ∷ [])).0 ≡ (round t c1 s1 a).0
  unfolding drain
  drain-append c s [] a = refl
  drain-append c s (b ∷ l) a = let (c1, s1, l1) = round t c s b in drain-append c1 s1 l a

  read_result_empty :
      (reply : ℕ) (x : Result Bytes RecvError × t.Socket)
      → (read_result t reply x).2 ≡ read_reply reply (ok []) ∷ []
      → (x.0 ≡ ok []) ⊎ (x.0 ≡ err finished)
  unfolding read_result
  read_result_empty reply (ok buf, s) h = ground arith
  read_result_empty reply (err finished, s) h = inr refl
  read_result_empty reply (err invalid_state, s) h = cc

  write_result_zero :
      (reply : ℕ) (x : Option ℕ × t.Socket)
      → (write_result t reply x).2 ≡ write_reply reply (ok 0) ∷ []
      → x.0 ≡ some 0
  unfolding write_result
  write_result_zero reply (some n, s) h = ground arith
  write_result_zero reply (none, s) h = cc

module _ (t : Tcp) (laws : TcpLaws t) where
  io_after_end :
      (gone : ℕ → Bool) (c : ConnState) (s : t.Socket)
      → t.may_send s ≡ false
      → (service_io t gone c s).0.write ≡ none
  unfolding service_io
  io_after_end gone c s h =
      serve_write_ended t gone c.write _ ((serve_read_keeps_send t laws gone c.read s).may_send ∙ h)

  -- After a half-close, as the last command of a service, no write is left pending.
  pub close_write_resolves :
      (gone gone' : ℕ → Bool) (l : List Arrival) (reply : ℕ) (c : ConnState) (s : t.Socket)
      → (service t gone (l ++ record { cmd = close_write reply; gone = gone' } ∷ []) c s).0.write
        ≡ none
  unfolding service round handle_cmd
  close_write_resolves gone gone' l reply c s =
      let (c1, s1, l1) = service_io t gone c s in
      let (c2, s2, l2) = drain t c1 s1 l in
      ap (λ r. r.write) (drain-append t c1 s1 l (record { cmd = close_write reply; gone = gone' }))
      ∙ io_after_end gone' c2 (t.close s2) (laws.close_ends_send s2)

  -- After a close, as the last command of a service, nothing is left pending in either direction.
  pub close_resolves :
      (gone gone' : ℕ → Bool) (l : List Arrival) (reply : ℕ) (c : ConnState) (s : t.Socket)
      → let c' = (service t gone (l ++ record { cmd = close reply; gone = gone' } ∷ []) c s).0 in
        (c'.read ≡ none) × (c'.write ≡ none)
  unfolding service round handle_cmd service_io
  close_resolves gone gone' l reply c s =
      let (c1, s1, l1) = service_io t gone c s in
      let (c2, s2, l2) = drain t c1 s1 l in
      let e = drain-append t c1 s1 l (record { cmd = close reply; gone = gone' }) in
      (
        ap (λ r. r.read) e ∙ serve_read_ended t gone' c2.read (t.abort s2) (laws.abort_recv s2),
        ap (λ r. r.write) e ∙ io_after_end gone' c2 (t.abort s2) (laws.abort_ends_send s2),
      )

  -- An empty answer to a read, which the relay takes for the end of the stream, is given only to a
  -- read of no bytes or when the socket's receive half has ended.
  pub empty_read_ends :
      (gone : ℕ → Bool) (r : PendingRead) (s : t.Socket)
      → (serve_read t gone (some r) s).2 ≡ read_reply r.reply (ok []) ∷ []
      → (r.max_len ≡ 0) ⊎ (t.may_recv s ≡ false)
  unfolding serve_read
  empty_read_ends gone r s h =
      let n = min r.max_len (t.recv_queue s) in
      ground (
        arith,
        read_result_empty t r.reply (t.recv_slice s n),
        laws.recv_progress s n,
        laws.can_recv_some s,
      )

  -- A write of at least one byte is never answered with a count of 0, which the relay would take for
  -- an error.
  pub zero_write_empty :
      (gone : ℕ → Bool) (w : PendingWrite) (s : t.Socket)
      → (serve_write t gone (some w) s).2 ≡ write_reply w.reply (ok 0) ∷ []
      → w.body ≡ []
  unfolding serve_write
  zero_write_empty gone w s h = ground (
    arith,
    write_result_zero t w.reply (t.send_slice s w.body),
    laws.send_progress s w.body,
    laws.send_closed s w.body,
  )
