-- ===== src/Netstack/Conn/Transfer.antt =====
-- The bytes that src/netstack/actor.rs's `ConnState::service` moves between the socket and the relay.
use smoltcp_socks.Common.{
  ℕ, zero, suc, ◌+◌, ◌≤◌, ◌≡◌, refl, sym, ap, ◌∙◌, Bool, List, [], ◌∷◌, ◌++◌, Option, none, some,
  Bytes, arith, min, Result, ok, err, length, take, append_assoc, append-nil, length-append,
}
use smoltcp_socks.Netstack.Vconn.{ConnCmd, read, write, close_write, close}
use smoltcp_socks.Netstack.Socket.{Tcp, TcpLaws, RecvError, finished, invalid_state}
use smoltcp_socks.Netstack.Conn.{
  PendingRead, PendingWrite, ConnState, Event, read_reply, write_reply, close_reply, dropped,
  Arrival, read_result, write_result, serve_read, serve_write, service_io, handle_cmd, round, drain,
  service,
}

abbrev read_bytes : Event → Bytes
read_bytes (read_reply i (ok buf)) = buf
read_bytes (read_reply i (err e)) = []
read_bytes (write_reply i r) = []
read_bytes (close_reply i r) = []
read_bytes (dropped i) = []

-- The bytes that the log hands to the readers, in order.
abbrev pub delivered : List Event → Bytes
delivered [] = []
delivered (e ∷ l) = read_bytes e ++ delivered l

abbrev write_count : Event → ℕ
write_count (read_reply i r) = 0
write_count (write_reply i (ok n)) = n
write_count (write_reply i (err e)) = 0
write_count (close_reply i r) = 0
write_count (dropped i) = 0

-- The number of bytes that the log confirms to the writers.
abbrev pub confirmed : List Event → ℕ
confirmed [] = 0
confirmed (e ∷ l) = write_count e + confirmed l

delivered-append : (k l : List Event) → delivered (k ++ l) ≡ delivered k ++ delivered l
delivered-append [] l = refl
delivered-append (e ∷ k) l =
    ap (◌++◌ (read_bytes e)) (delivered-append k l)
    ∙ sym (append_assoc (read_bytes e) (delivered k) (delivered l))

confirmed-append : (k l : List Event) → confirmed (k ++ l) ≡ confirmed k + confirmed l
confirmed-append [] l = omega arith
confirmed-append (e ∷ k) l = omega (arith, confirmed-append k l)

length-take_fits : (n : ℕ) (xs : Bytes) → n ≤ length xs → length (take n xs) ≡ n
length-take_fits zero xs h = refl
length-take_fits (suc n) [] h = absurd (omega arith)
length-take_fits (suc n) (x ∷ xs) h = ap suc (length-take_fits n xs (omega arith))

module _ (t : Tcp) (laws : TcpLaws t) where
  -- A step from `s` to `s'` whose log hands over what it takes from the socket, and confirms what it
  -- puts into it.
  record Moves (s s' : t.Socket) (log : List Event) : Type 0 where
    reads : t.unread s ≡ delivered log ++ t.unread s'
    writes : length (t.queued s') ≡ length (t.queued s) + confirmed log

  Moves-trans :
      {s1 s2 s3 : t.Socket} {k l : List Event}
      → Moves s1 s2 k
      → Moves s2 s3 l
      → Moves s1 s3 (k ++ l)
  Moves-trans {s1} {s2} {s3} {k} {l} p q = record {
    reads =
        p.reads
        ∙ ap (◌++◌ (delivered k)) q.reads
        ∙ sym (append_assoc (delivered k) (delivered l) (t.unread s3))
        ∙ ap (λ b. b ++ t.unread s3) (sym (delivered-append k l));
    writes = omega (arith, p.writes, q.writes, confirmed-append k l);
  }

  -- A failed or a refused call moves nothing.
  rests :
      (s s' : t.Socket) (e : Event)
      → read_bytes e ≡ []
      → write_count e ≡ 0
      → t.unread s' ≡ t.unread s
      → t.queued s' ≡ t.queued s
      → Moves s s' (e ∷ [])
  rests s s' e p q u v = record {
    reads = sym (ap (λ b. (b ++ []) ++ t.unread s') p ∙ u);
    writes = omega (arith, q, ap length v);
  }

  unchanged : (s : t.Socket) → Moves s s []
  unchanged s = record { reads = refl; writes = omega arith }

  read_result-Moves :
      (reply n : ℕ) (s : t.Socket) (x : Result Bytes RecvError × t.Socket)
      → t.recv_slice s n ≡ x
      → let (o, s', log) = read_result t reply x in Moves s s' log
  unfolding read_result
  read_result-Moves reply n s (ok buf, s') e =
      let same = (laws.recv_keeps_send s n).queued in
      record {
        reads =
            (laws.recv_takes s n buf (ap (λ x. x.0) e)).1
            ∙ ap (λ b. buf ++ t.unread b) (ap (λ x. x.1) e)
            ∙ ap (λ b. b ++ t.unread s') (sym (append-nil buf));
        writes = omega (arith, ap length same, ap (λ x. length (t.queued x.1)) e);
      }
  read_result-Moves reply n s (err finished, s') e =
      rests s s' _ refl refl
        (ap (λ x. t.unread x.1) (sym e) ∙ laws.recv_refused s n finished (ap (λ x. x.0) e))
        (ap (λ x. t.queued x.1) (sym e) ∙ (laws.recv_keeps_send s n).queued)
  read_result-Moves reply n s (err invalid_state, s') e =
      rests s s' _ refl refl
        (ap (λ x. t.unread x.1) (sym e) ∙ laws.recv_refused s n invalid_state (ap (λ x. x.0) e))
        (ap (λ x. t.queued x.1) (sym e) ∙ (laws.recv_keeps_send s n).queued)

  write_result-Moves :
      (reply : ℕ) (s : t.Socket) (body : Bytes) (x : Option ℕ × t.Socket)
      → t.send_slice s body ≡ x
      → let (o, s', log) = write_result t reply x in Moves s s' log
  unfolding write_result
  write_result-Moves reply s body (some n, s') e =
      let (fits, put) = laws.send_takes s body n (ap (λ x. x.0) e) in
      record {
        reads = sym ((laws.send_keeps_recv s body).unread) ∙ ap (λ x. t.unread x.1) e;
        writes = omega (
          arith,
          ap (λ x. length (t.queued x.1)) e,
          ap length put,
          length-append (t.queued s) (take n body),
          length-take_fits n body fits,
        );
      }
  write_result-Moves reply s body (none, s') e =
      rests s s' _ refl refl (ap (λ x. t.unread x.1) (sym e) ∙ (laws.send_keeps_recv s body).unread)
        (ap (λ x. t.queued x.1) (sym e) ∙ laws.send_refused s body (ap (λ x. x.0) e))

  serve_read-Moves :
      (gone : ℕ → Bool) (o : Option PendingRead) (s : t.Socket)
      → let (o', s', log) = serve_read t gone o s in Moves s s' log
  unfolding serve_read
  serve_read-Moves gone none s = unchanged s
  serve_read-Moves gone (some r) s =
      let n = min r.max_len (t.recv_queue s) in
      ground (
        arith,
        read_result-Moves r.reply n s (t.recv_slice s n) refl,
        unchanged s,
        rests s s (dropped r.reply) refl refl refl refl,
        rests s s (read_reply r.reply (ok [])) refl refl refl refl,
      )

  serve_write-Moves :
      (gone : ℕ → Bool) (o : Option PendingWrite) (s : t.Socket)
      → let (o', s', log) = serve_write t gone o s in Moves s s' log
  unfolding serve_write
  serve_write-Moves gone none s = unchanged s
  serve_write-Moves gone (some w) s = ground (
    arith,
    write_result-Moves w.reply s w.body (t.send_slice s w.body) refl,
    unchanged s,
    rests s s (dropped w.reply) refl refl refl refl,
    rests s s (write_reply w.reply (ok 0)) refl refl refl refl,
  )

  service_io-Moves :
      (gone : ℕ → Bool) (c : ConnState) (s : t.Socket)
      → let (c', s', log) = service_io t gone c s in Moves s s' log
  unfolding service_io
  service_io-Moves gone c s =
      let (r, s1, l1) = serve_read t gone c.read s in
      Moves-trans (serve_read-Moves gone c.read s) (serve_write-Moves gone c.write s1)

  handle_cmd-Moves :
      (c : ConnState) (s : t.Socket) (cmd : ConnCmd)
      → let (c', s', log) = handle_cmd t c s cmd in Moves s s' log
  unfolding handle_cmd
  handle_cmd-Moves c s (read max_len reply) = ground (arith, unchanged s)
  handle_cmd-Moves c s (write body reply) = ground (arith, unchanged s)
  handle_cmd-Moves c s (close_write reply) =
      rests s (t.close s) _ refl refl (laws.close_unread s) (laws.close_queued s)
  handle_cmd-Moves c s (close reply) =
      rests s (t.abort s) _ refl refl (laws.abort_unread s) (laws.abort_queued s)

  drain-Moves :
      (c : ConnState) (s : t.Socket) (l : List Arrival)
      → let (c', s', log) = drain t c s l in Moves s s' log
  unfolding drain round
  drain-Moves c s [] = unchanged s
  drain-Moves c s (a ∷ l) =
      let (c1, s1, l1) = handle_cmd t c s a.cmd in
      let (c2, s2, l2) = service_io t a.gone c1 s1 in
      Moves-trans (Moves-trans (handle_cmd-Moves c s a.cmd) (service_io-Moves a.gone c1 s1))
        (drain-Moves c2 s2 l)

  -- Over a whole service, closes included, the bytes handed to the readers are the next ones of the
  -- received stream, in order, none lost and none twice, and the socket has taken for sending as
  -- many bytes as were confirmed to the writers.
  pub service_moves :
      (gone : ℕ → Bool) (l : List Arrival) (c : ConnState) (s : t.Socket)
      → let (c', s', log) = service t gone l c s in
        (t.unread s ≡ delivered log ++ t.unread s')
        × (length (t.queued s') ≡ length (t.queued s) + confirmed log)
  unfolding service
  service_moves gone l c s =
      let (c1, s1, l1) = service_io t gone c s in
      let m = Moves-trans (service_io-Moves gone c s) (drain-Moves c1 s1 l) in (m.reads, m.writes)
