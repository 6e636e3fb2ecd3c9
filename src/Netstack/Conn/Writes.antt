-- ===== src/Netstack/Conn/Writes.antt =====
-- What can come of one service of a pending write in src/netstack/actor.rs's `service_io`.
use smoltcp_socks.Common.{
  ℕ, ◌≤◌, arith, ◌≡◌, ◌⊎◌, inl, inr, refl, Bool, false, not, ◌&&◌, [], ◌∷◌, ◌++◌, none, some, Bytes,
  take, ok, err, Bool-cases, Option-cases,
}
use smoltcp_socks.Netstack.Vconn.{closed}
use smoltcp_socks.Netstack.Socket.{Tcp, TcpLaws}
use smoltcp_socks.Netstack.Conn.{PendingWrite, write_reply, WriteOut, write_result, serve_write}

-- The callers are still there.
abbrev pub waits : ℕ → Bool
waits i = false

module _ (t : Tcp) (laws : TcpLaws t) where
  -- The three things that can come of a service of a write.
  unfoldable pub WriteStep : PendingWrite → t.Socket → WriteOut t → Type 0
  WriteStep w s r =
      (r ≡ (some w, s, []))
      ⊎ ((n : ℕ) × (s' : t.Socket) × (r ≡ (none, s', write_reply w.reply (ok n) ∷ []))
          × (t.queued s' ≡ t.queued s ++ take n w.body)
          × (1 ≤ n))
      ⊎ ((s' : t.Socket) × (r ≡ (none, s', write_reply w.reply (err closed) ∷ []))
          × (t.queued s' ≡ t.queued s))

  some_accepted :
      (c n : ℕ) (b : Bytes) (s : t.Socket)
      → (not (t.can_send s) && t.may_send s) ≡ false
      → (t.send_slice s (c ∷ b)).0 ≡ some n
      → 1 ≤ n
  some_accepted c n b s e f =
      ground (arith, f, laws.send_progress s (c ∷ b), laws.send_closed s (c ∷ b))

  pub serve_write-WriteStep :
      (c i : ℕ) (b : Bytes) (s : t.Socket)
      → (let w : PendingWrite = record { body = c ∷ b; reply = i } in
          WriteStep w s (serve_write t waits (some w) s))
  unfolding WriteStep serve_write write_result
  serve_write-WriteStep c i b s = elim (Bool-cases (not (t.can_send s) && t.may_send s)) [
    | inl e ↦ rw e (inl refl)
    | inr e ↦ elim (Option-cases (t.send_slice s (c ∷ b)).0) [
      | inl f ↦
          rw e (rw f (inr (inr ((t.send_slice s (c ∷ b)).1, refl, laws.send_refused s (c ∷ b) f))))
      | inr (n, f) ↦ rw e (
          rw f (
            inr (
              inl (
                n,
                (t.send_slice s (c ∷ b)).1,
                refl,
                (laws.send_takes s (c ∷ b) n f).1,
                some_accepted c n b s e f,
              ))))
    ]
  ]
