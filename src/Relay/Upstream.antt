-- ===== src/Relay/Upstream.antt =====
-- The upward loop of src/relay.rs over the actor of src/netstack/actor.rs: the answers to its reads are
-- those of `ConnState`, over the connection's socket.
use smoltcp_socks.Common.{
  ◌≡◌, ◌≢◌, inl, inr, refl, ap, sym, ◌∙◌, Bool, true, false, List, [], ◌∷◌, ◌++◌, Option, none,
  some, Bytes, Result, ok, err, All, append_assoc, append-nil,
}
use smoltcp_socks.Netstack.Vconn.{VConnError}
use smoltcp_socks.Netstack.Socket.{Tcp, TcpLaws}
use smoltcp_socks.Netstack.Conn.{Event, read_reply, serve_read}
use smoltcp_socks.Netstack.Conn.Writes.{waits}
use smoltcp_socks.Netstack.Conn.Reads.{ReadStep, serve_read-ReadStep}
use smoltcp_socks.Relay.{
  relay_buf, failed, upstream_write, UpRound, up_round, up_chunk, copy_vconn_to,
}
use smoltcp_socks.Relay.Copy.{written}

abbrev pub read_answer : List Event → Option (Result Bytes VConnError)
read_answer (read_reply i r ∷ l) = some r
read_answer _ = none

module _ (t : Tcp) where
  -- smoltcp's poll of a socket, and the bytes that it receives in it.
  pub record Poll : Type 0 where
    pub poll : t.Socket → t.Socket
    pub arrives : t.Socket → Bytes

  -- The answer to a read, if there is one by then, the socket after it, and what has arrived.
  abbrev pub Answer : Type 0
  Answer = Option (Result Bytes VConnError) × t.Socket × Bytes

  abbrev pub after_read : Option (Result Bytes VConnError) → t.Socket → Answer → Answer
  after_read (some r) s later = (some r, s, [])
  after_read none s later = later

  -- smoltcp polls the socket, then the actor serves the read, and so on until the read is answered.
  unfoldable pub read_served : List Poll → t.Socket → Answer
  unfolding serve_read
  read_served [] s = (none, s, [])
  read_served (p ∷ ps) s =
      let polled = p.poll s in
      let (r, s', l) =
        serve_read t waits (some (record { max_len = relay_buf; reply = 0 })) polled in
      let x = after_read (read_answer l) s' (read_served ps s') in (x.0, x.1, p.arrives s ++ x.2)

  -- The polls while a read waits, and whether the write of its bytes to the upstream succeeds.
  pub record UpChunk : Type 0 where
    pub polls : List Poll
    pub write_ok : Bool

  abbrev pub UpRun : Type 0
  UpRun = List UpRound × t.Socket × Bytes

  -- The loop ends with an answer that is an error or empty, and with a write that fails.
  abbrev pub read_round : Option (Result Bytes VConnError) → Bool → t.Socket → Bytes → UpRun → UpRun
  read_round none write_ok s arrived rest = ([], s, arrived)
  read_round (some (err e)) write_ok s arrived rest =
      (record { read = err e; write_ok = write_ok } ∷ [], s, arrived)
  read_round (some (ok [])) write_ok s arrived rest =
      (record { read = ok []; write_ok = write_ok } ∷ [], s, arrived)
  read_round (some (ok (c ∷ b))) false s arrived rest =
      (record { read = ok (c ∷ b); write_ok = false } ∷ [], s, arrived)
  read_round (some (ok (c ∷ b))) true s arrived rest =
      (record { read = ok (c ∷ b); write_ok = true } ∷ rest.0, rest.1, arrived ++ rest.2)

  -- The rounds of the upward loop, the socket where it stops, and all that has arrived.
  unfoldable pub relayed_up : List UpChunk → t.Socket → UpRun
  unfolding read_served
  relayed_up [] s = ([], s, [])
  relayed_up (k ∷ ks) s =
      let a = read_served k.polls s in read_round a.0 k.write_ok a.1 a.2 (relayed_up ks a.1)

  -- A poll appends what arrives to what has not been read yet.
  abbrev pub IsIntake : Poll → Type 0
  IsIntake p = (s : t.Socket) → t.unread (p.poll s) ≡ t.unread s ++ p.arrives s

  abbrev pub IsUpChunk : UpChunk → Type 0
  IsUpChunk k = All IsIntake k.polls

abbrev answered : Option (Result Bytes VConnError) → Bytes
answered none = []
answered (some (err e)) = []
answered (some (ok b)) = b

module _ (t : Tcp) (laws : TcpLaws t) where
  -- What was unread and what arrives is what the answer takes and what is unread then.
  abbrev Takes : t.Socket → Answer t → Type 0
  Takes s a = t.unread s ++ a.2 ≡ answered a.0 ++ t.unread a.1

  -- What a poll receives stands behind what was unread.
  taken_in :
      (p : Poll t) (s : t.Socket) (later : Bytes)
      → IsIntake t p
      → t.unread s ++ (p.arrives s ++ later) ≡ t.unread (p.poll s) ++ later
  taken_in p s later h =
      sym (append_assoc (t.unread s) (p.arrives s) later) ∙ ap (λ b. b ++ later) (sym (h s))

  read_served-Takes :
      (ps : List (Poll t)) (s : t.Socket) → All (IsIntake t) ps → Takes s (read_served t ps s)
  unfolding read_served ReadStep
  read_served-Takes [] s h = append-nil (t.unread s)
  read_served-Takes (p ∷ ps) s h =
      elim (serve_read-ReadStep t laws (record { max_len = relay_buf; reply = 0 }) (p.poll s)
        refl) [
          | inl e ↦ rw e (
              taken_in p s (read_served t ps (p.poll s)).2 h.0
              ∙ read_served-Takes ps (p.poll s) h.1)
          | inr (inl (d, s', e, q)) ↦
              rw e (taken_in p s [] h.0 ∙ append-nil (t.unread (p.poll s)) ∙ q)
          | inr (inr (s', e, q)) ↦ rw e (taken_in p s [] h.0 ∙ append-nil (t.unread (p.poll s)) ∙ q)
        ]

  Carries : t.Socket → UpRun t → Type 0
  Carries s x =
      (copy_vconn_to x.0).0 ≢ failed upstream_write
      → t.unread s ++ x.2 ≡ written (copy_vconn_to x.0).1 ++ t.unread x.1

  read_round-Carries :
      (o : Option (Result Bytes VConnError)) (w : Bool) (s s' : t.Socket) (arrived : Bytes)
      (rest : UpRun t)
      → Takes s (o, s', arrived)
      → Carries s' rest
      → Carries s (read_round t o w s' arrived rest)
  unfolding Carries copy_vconn_to up_round up_chunk
  read_round-Carries none w s s' arrived rest p q h = p
  read_round-Carries (some (err e)) w s s' arrived rest p q h = p
  read_round-Carries (some (ok [])) w s s' arrived rest p q h = p
  read_round-Carries (some (ok (c ∷ b))) false s s' arrived rest p q h = absurd (h refl)
  read_round-Carries (some (ok (c ∷ b))) true s s' arrived rest p q h =
      sym (append_assoc (t.unread s) arrived rest.2)
      ∙ ap (λ l. l ++ rest.2) p
      ∙ append_assoc (c ∷ b) (t.unread s') rest.2
      ∙ ap (◌++◌ (c ∷ b)) (q h)
      ∙ sym (append_assoc (c ∷ b) (written (copy_vconn_to rest.0).1) (t.unread rest.1))

  nothing : (s : t.Socket) → Carries s ([], s, [])
  unfolding Carries copy_vconn_to
  nothing s h = append-nil (t.unread s)

  relayed_up-Carries :
      (ks : List (UpChunk t)) (s : t.Socket) → All (IsUpChunk t) ks → Carries s (relayed_up t ks s)
  unfolding relayed_up
  relayed_up-Carries [] s h = nothing s
  relayed_up-Carries (k ∷ ks) s h =
      let a = read_served t k.polls s in
      read_round-Carries a.0 k.write_ok s a.1 a.2 (relayed_up t ks a.1)
        (read_served-Takes k.polls s h.0) (relayed_up-Carries ks a.1 h.1)

  -- The upward relay of a connection over the actor, whatever smoltcp does in between: as long as no
  -- write to the upstream has failed, the bytes written to it and then those that the socket still
  -- holds are all that the client has sent, in order, none lost and none twice, also when a read has
  -- failed.
  pub relayed_up_carries :
      (ks : List (UpChunk t)) (s : t.Socket)
      → All (IsUpChunk t) ks
      → (copy_vconn_to (relayed_up t ks s).0).0 ≢ failed upstream_write
      → t.unread s ++ (relayed_up t ks s).2
        ≡ written (copy_vconn_to (relayed_up t ks s).0).1 ++ t.unread (relayed_up t ks s).1
  unfolding Carries
  relayed_up_carries ks s h no_failure = relayed_up-Carries ks s h no_failure
