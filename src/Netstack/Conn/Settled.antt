-- ===== src/Netstack/Conn/Settled.antt =====
-- What src/netstack/actor.rs's `ConnState::service` leaves pending, and the answers that a relay
-- reads as the end of the stream.
use smoltcp_socks.Common.{
  ℕ, ◌≤◌, ◌≡◌, ◌⊎◌, inl, inr, refl, ◌∙◌, Bool, true, false, List, [], ◌∷◌, Option, none, some,
  Bytes, arith, min, Result, ok, err, length,
}
use smoltcp_socks.Netstack.Socket.{
  Tcp, TcpLaws, SameReceive, SameSend, RecvError, finished, invalid_state,
}
use smoltcp_socks.Netstack.Conn.{
  PendingRead, PendingWrite, ConnState, Arrival, read_result, write_result, serve_read, serve_write,
  service_io, handle_cmd, round, drain, service,
}

module _ (t : Tcp) where
  -- A read that waits: its caller is there, it wants bytes, none are there, and more may come.
  abbrev pub ReadWaits : (ℕ → Bool) → Option PendingRead → t.Socket → Type 0
  ReadWaits gone none s = Unit
  ReadWaits gone (some r) s =
      (gone r.reply ≡ false) × (1 ≤ r.max_len) × (t.can_recv s ≡ false) × (t.may_recv s ≡ true)

  abbrev pub WriteWaits : (ℕ → Bool) → Option PendingWrite → t.Socket → Type 0
  WriteWaits gone none s = Unit
  WriteWaits gone (some w) s =
      (gone w.reply ≡ false) × (1 ≤ length w.body) × (t.can_send s ≡ false) × (t.may_send s ≡ true)

  read_result-none :
      (reply : ℕ) (x : Result Bytes RecvError × t.Socket) → (read_result t reply x).0 ≡ none
  unfolding read_result
  read_result-none reply (ok buf, s) = refl
  read_result-none reply (err finished, s) = refl
  read_result-none reply (err invalid_state, s) = refl

  serve_read_waits :
      (gone : ℕ → Bool) (o : Option PendingRead) (s : t.Socket)
      → let (o', s', l) = serve_read t gone o s in ReadWaits gone o' s'
  unfolding serve_read
  serve_read_waits gone none s = tt
  serve_read_waits gone (some r) s =
      ground (arith, read_result-none r.reply (t.recv_slice s (min r.max_len (t.recv_queue s))))

  write_result-none : (reply : ℕ) (x : Option ℕ × t.Socket) → (write_result t reply x).0 ≡ none
  unfolding write_result
  write_result-none reply (some n, s) = refl
  write_result-none reply (none, s) = refl

  serve_write_waits :
      (gone : ℕ → Bool) (o : Option PendingWrite) (s : t.Socket)
      → let (o', s', l) = serve_write t gone o s in WriteWaits gone o' s'
  unfolding serve_write
  serve_write_waits gone none s = tt
  serve_write_waits gone (some w) s =
      ground (arith, write_result-none w.reply (t.send_slice s w.body))

  read_result_socket :
      (reply : ℕ) (x : Result Bytes RecvError × t.Socket) → (read_result t reply x).1 ≡ x.1
  unfolding read_result
  read_result_socket reply (ok buf, s) = refl
  read_result_socket reply (err finished, s) = refl
  read_result_socket reply (err invalid_state, s) = refl

  write_result_socket : (reply : ℕ) (x : Option ℕ × t.Socket) → (write_result t reply x).1 ≡ x.1
  unfolding write_result
  write_result_socket reply (some n, s) = refl
  write_result_socket reply (none, s) = refl

  -- The buffer of a read and the slice of a write.
  abbrev pub read_len : Option PendingRead → t.Socket → ℕ
  read_len none s = 0
  read_len (some r) s = min r.max_len (t.recv_queue s)

  abbrev pub write_body : Option PendingWrite → Bytes
  write_body none = []
  write_body (some w) = w.body

  -- The socket after a half of `service_io`: the same, or what one call of smoltcp made of it.
  pub serve_read_socket :
      (gone : ℕ → Bool) (o : Option PendingRead) (s : t.Socket)
      → ((serve_read t gone o s).1 ≡ s)
        ⊎ ((serve_read t gone o s).1 ≡ (t.recv_slice s (read_len o s)).1)
  unfolding serve_read
  serve_read_socket gone none s = inl refl
  serve_read_socket gone (some r) s =
      ground (arith, read_result_socket r.reply (t.recv_slice s (min r.max_len (t.recv_queue s))))

  pub serve_write_socket :
      (gone : ℕ → Bool) (o : Option PendingWrite) (s : t.Socket)
      → ((serve_write t gone o s).1 ≡ s)
        ⊎ ((serve_write t gone o s).1 ≡ (t.send_slice s (write_body o)).1)
  unfolding serve_write
  serve_write_socket gone none s = inl refl
  serve_write_socket gone (some w) s =
      ground (arith, write_result_socket w.reply (t.send_slice s w.body))

  -- Once both halves agree that nothing more comes, no read waits; once sending has ended, no write.
  pub serve_read_ended :
      (gone : ℕ → Bool) (o : Option PendingRead) (s : t.Socket)
      → t.may_recv s ≡ t.can_recv s
      → (serve_read t gone o s).0 ≡ none
  unfolding serve_read
  serve_read_ended gone none s e = refl
  serve_read_ended gone (some r) s e =
      ground (arith, read_result-none r.reply (t.recv_slice s (min r.max_len (t.recv_queue s))))

  pub serve_write_ended :
      (gone : ℕ → Bool) (o : Option PendingWrite) (s : t.Socket)
      → t.may_send s ≡ false
      → (serve_write t gone o s).0 ≡ none
  unfolding serve_write
  serve_write_ended gone none s e = refl
  serve_write_ended gone (some w) s e =
      ground (arith, write_result-none w.reply (t.send_slice s w.body))

  ReadWaits-same :
      (gone : ℕ → Bool) (o : Option PendingRead) (s s' : t.Socket)
      → SameReceive t s s'
      → ReadWaits gone o s
      → ReadWaits gone o s'
  ReadWaits-same gone none s s' e h = tt
  ReadWaits-same gone (some r) s s' e h = (h.0, h.1, e.can_recv ∙ h.2, e.may_recv ∙ h.3)

-- Nothing waits that could be served: see `ReadWaits` and `WriteWaits`.
pub record Settled (t : Tcp) (gone : ℕ → Bool) (c : ConnState) (s : t.Socket) : Type 0 where
  pub reads : ReadWaits t gone c.read s
  pub writes : WriteWaits t gone c.write s

-- The reply channels found closed by the last service of the call.
abbrev pub last_gone : (ℕ → Bool) → List Arrival → ℕ → Bool
last_gone gone [] = gone
last_gone gone (a ∷ l) = last_gone a.gone l

module _ (t : Tcp) (laws : TcpLaws t) where
  pub serve_write_keeps_recv :
      (gone : ℕ → Bool) (o : Option PendingWrite) (s : t.Socket)
      → SameReceive t s (serve_write t gone o s).1
  serve_write_keeps_recv gone o s = elim (serve_write_socket t gone o s) [
    | inl e ↦ rw e (record { may_recv = refl; can_recv = refl; unread = refl })
    | inr e ↦ rw e (laws.send_keeps_recv s (write_body t o))
  ]

  pub serve_read_keeps_send :
      (gone : ℕ → Bool) (o : Option PendingRead) (s : t.Socket)
      → SameSend t s (serve_read t gone o s).1
  serve_read_keeps_send gone o s = elim (serve_read_socket t gone o s) [
    | inl e ↦ rw e (record { may_send = refl; can_send = refl; queued = refl })
    | inr e ↦ rw e (laws.recv_keeps_send s (read_len t o s))
  ]

  service_io_settles :
      (gone : ℕ → Bool) (c : ConnState) (s : t.Socket)
      → let (c', s', log) = service_io t gone c s in Settled t gone c' s'
  unfolding service_io
  service_io_settles gone c s =
      let (r, s1, l1) = serve_read t gone c.read s in
      record {
        reads =
            ReadWaits-same t gone r s1 _ (serve_write_keeps_recv gone c.write s1)
              (serve_read_waits t gone c.read s);
        writes = serve_write_waits t gone c.write s1;
      }

  drain_settles :
      (gone : ℕ → Bool) (c : ConnState) (s : t.Socket) (l : List Arrival)
      → Settled t gone c s
      → let (c', s', log) = drain t c s l in Settled t (last_gone gone l) c' s'
  unfolding drain round
  drain_settles gone c s [] h = h
  drain_settles gone c s (a ∷ l) h =
      let (c1, s1, l1) = handle_cmd t c s a.cmd in
      let (c2, s2, l2) = service_io t a.gone c1 s1 in
      drain_settles a.gone c2 s2 l (service_io_settles a.gone c1 s1)

  -- A service leaves no request pending that it could have served: a read waits only for bytes that
  -- may still come while none are there, and a write only for room in a socket that may still send;
  -- both want at least one byte, and their callers have not given up.
  pub service_settles :
      (gone : ℕ → Bool) (l : List Arrival) (c : ConnState) (s : t.Socket)
      → let (c', s', log) = service t gone l c s in Settled t (last_gone gone l) c' s'
  unfolding service
  service_settles gone l c s =
      let (c1, s1, l1) = service_io t gone c s in
      drain_settles gone c1 s1 l (service_io_settles gone c s)
