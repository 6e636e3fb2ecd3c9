-- ===== src/Netstack/Conn/Reads.antt =====
-- What can come of one service of a pending read in src/netstack/actor.rs's `service_io`.
use smoltcp_socks.Common.{
  ℕ, ◌≡◌, ◌⊎◌, inl, inr, refl, ap, sym, ◌∙◌, false, not, ◌&&◌, ◌==◌, [], ◌∷◌, ◌++◌, none, some,
  Bytes, Result, ok, err, min, Bool-cases,
}
use smoltcp_socks.Netstack.Vconn.{closed}
use smoltcp_socks.Netstack.Socket.{Tcp, TcpLaws, RecvError, finished, invalid_state}
use smoltcp_socks.Netstack.Conn.{PendingRead, read_reply, ReadOut, read_result, serve_read}
use smoltcp_socks.Netstack.Conn.Writes.{waits}

module _ (t : Tcp) (laws : TcpLaws t) where
  -- The two things that can come of a service of a read: it waits, or it is answered, with the next
  -- bytes of the received stream or with an error that takes none.
  unfoldable pub ReadStep : PendingRead → t.Socket → ReadOut t → Type 0
  ReadStep r s o =
      (o ≡ (some r, s, []))
      ⊎ ((d : Bytes) × (s' : t.Socket) × (o ≡ (none, s', read_reply r.reply (ok d) ∷ []))
          × (t.unread s ≡ d ++ t.unread s'))
      ⊎ ((s' : t.Socket) × (o ≡ (none, s', read_reply r.reply (err closed) ∷ []))
          × (t.unread s ≡ t.unread s'))

  read_result-ReadStep :
      (r : PendingRead) (n : ℕ) (s : t.Socket) (x : Result Bytes RecvError × t.Socket)
      → t.recv_slice s n ≡ x
      → ReadStep r s (read_result t r.reply x)
  unfolding ReadStep read_result
  read_result-ReadStep r n s (ok d, s') e = inr (
      inl
        (d, s', refl, (laws.recv_takes s n d (ap (λ x. x.0) e)).1 ∙ ap (λ x. d ++ t.unread x.1) e))
  read_result-ReadStep r n s (err finished, s') e = inr (
      inl (
        [],
        s',
        refl,
        sym (laws.recv_refused s n finished (ap (λ x. x.0) e)) ∙ ap (λ x. t.unread x.1) e,
      ))
  read_result-ReadStep r n s (err invalid_state, s') e = inr (
      inr (
        s',
        refl,
        sym (laws.recv_refused s n invalid_state (ap (λ x. x.0) e)) ∙ ap (λ x. t.unread x.1) e,
      ))

  pub serve_read-ReadStep :
      (r : PendingRead) (s : t.Socket)
      → (r.max_len == 0) ≡ false
      → ReadStep r s (serve_read t waits (some r) s)
  unfolding ReadStep serve_read
  serve_read-ReadStep r s some_room = elim (Bool-cases (not (t.can_recv s) && t.may_recv s)) [
    | inl e ↦ rw some_room (rw e (inl refl))
    | inr e ↦
        let n = min r.max_len (t.recv_queue s) in
        rw some_room (rw e (read_result-ReadStep r n s (t.recv_slice s n) refl))
  ]
