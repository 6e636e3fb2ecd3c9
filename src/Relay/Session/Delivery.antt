-- ===== src/Relay/Session/Delivery.antt =====
-- That the bytes of Relay/Session/Streams.antt keep their order in every step of a relay of
-- src/relay.rs.
use smoltcp_socks.Common.{
  ℕ, suc, ◌≡◌, refl, ap, sym, subst, ◌∙◌, true, false, List, [], ◌∷◌, ◌++◌, Bytes, none,
  append_assoc, append-nil,
}
use smoltcp_socks.Netstack.Vconn.{ConnCmd}
use smoltcp_socks.Netstack.Socket.{Tcp, TcpLaws}
use smoltcp_socks.Netstack.Conn.{new}
use smoltcp_socks.Relay.Session.{
  Up, awaits_read, up_ended, Down, awaits_write, awaits_close_write, down_ended, Stage, over,
  awaits_close, read_answered, bytes_of, accepted_of, Session, opened, delivers,
}
use smoltcp_socks.Relay.Session.Steps.{
  Call, Step, Reach, here, next, dials, asks, call_fails, gets_read, writes_upstream,
  upstream_fails, reads_upstream, gets_write, gets_close_write, joins, gets_close, polls, takes,
  drops_conn, actor_ends, network,
}
use smoltcp_socks.Relay.Session.Flight.{IsOrderly}
use smoltcp_socks.Relay.Session.Preserved.{none_pending}
use smoltcp_socks.Relay.Session.Orderly.{Reach-IsOrderly}
use smoltcp_socks.Relay.Session.Takes.{takes_keep}
use smoltcp_socks.Relay.Session.Rounds.{polls_keep}
use smoltcp_socks.Relay.Session.Streams.{
  Holds, Leaves, gained, IsStreamed, carried_on, Move-IsStreamed,
}
use smoltcp_socks.Relay.Session.Loops.{Holds-answered, written_on, gained-answered, source_left}

module _ (t : Tcp) (laws : TcpLaws t) (start : Bytes) where
  -- A relay that waits for an answer, with its command sent.
  sent :
      (s a b : Session t) (cmd : ConnCmd)
      → a ≡ b
      → IsStreamed t start
          (record b { commands = s.commands ++ cmd ∷ []; next_reply = suc s.next_reply })
      → IsStreamed t start
          (record a { commands = s.commands ++ cmd ∷ []; next_reply = suc s.next_reply })
  sent s a b cmd to h =
      subst
        (λ a.
          IsStreamed t start
            (record a { commands = s.commands ++ cmd ∷ []; next_reply = suc s.next_reply }))
        (sym to) h

  Call-IsStreamed :
      (s : Session t) (cmd : ConnCmd) (a f : Session t)
      → Call t s cmd a f
      → IsStreamed t start s
      → IsStreamed t start
          (record a { commands = s.commands ++ cmd ∷ []; next_reply = suc s.next_reply })
        × IsStreamed t start f
  Call-IsStreamed s cmd a f (Call.calls_read on up e to fails) h =
      let held = subst (λ up. Holds up h.held) up h.holds in
      let go = λ (up' : Up) (c' : List ConnCmd) (n' : ℕ) (holds : Holds up' h.held).
        carried_on t laws start s s.stage up' s.down c' n' s.conn h holds h.leaves refl in
      (
        sent s a _ cmd to
            (go (awaits_read s.next_reply none) (s.commands ++ cmd ∷ []) (suc s.next_reply) held),
        subst (IsStreamed t start) (sym fails) (go (up_ended false) s.commands s.next_reply tt),
      )
  Call-IsStreamed s cmd a f (Call.calls_write slice on down e to fails) h =
      let left = subst (λ d. Leaves d h.left) down h.leaves in
      let go =
        λ (down' : Down) (c' : List ConnCmd) (n' : ℕ) (leaves : Leaves down' h.left)
            (same : [] ≡ gained down').
          carried_on t laws start s s.stage s.up down' c' n' s.conn h h.holds leaves
            (ap gained down ∙ same) in
      (
        sent s a _ cmd to (
            go (awaits_write slice s.next_reply none) (s.commands ++ cmd ∷ []) (suc s.next_reply)
              left refl),
        subst (IsStreamed t start) (sym fails)
            (go (down_ended false) s.commands s.next_reply tt refl),
      )
  Call-IsStreamed s cmd a f (Call.calls_close_write on down e to fails) h =
      let left = subst (λ d. Leaves d h.left) down h.leaves in
      let go =
        λ (down' : Down) (c' : List ConnCmd) (n' : ℕ) (leaves : Leaves down' h.left)
            (same : [] ≡ gained down').
          carried_on t laws start s s.stage s.up down' c' n' s.conn h h.holds leaves
            (ap gained down ∙ same) in
      (
        sent s a _ cmd to (
            go (awaits_close_write s.next_reply none) (s.commands ++ cmd ∷ []) (suc s.next_reply)
              left refl),
        subst (IsStreamed t start) (sym fails)
            (go (down_ended true) s.commands s.next_reply left refl),
      )
  Call-IsStreamed s cmd a f (Call.calls_close on e to fails) h =
      let go = λ (stage' : Stage) (c' : List ConnCmd) (n' : ℕ).
        carried_on t laws start s stage' s.up s.down c' n' s.conn h h.holds h.leaves refl in
      (
        sent s a _ cmd to
            (go (awaits_close s.next_reply none) (s.commands ++ cmd ∷ []) (suc s.next_reply)),
        subst (IsStreamed t start) (sym fails) (go over s.commands s.next_reply),
      )

  Step-IsStreamed :
      (s u : Session t) → Step t s u → IsOrderly t s → IsStreamed t start s → IsStreamed t start u
  unfolding delivers
  Step-IsStreamed s u (dials b stage to) o h = subst (IsStreamed t start) (sym to) (
      carried_on t laws start s _ s.up s.down s.commands s.next_reply s.conn h h.holds h.leaves
        refl)
  Step-IsStreamed s u (asks cmd a f c call at room to) o h =
      subst (IsStreamed t start) (sym to) (Call-IsStreamed s cmd a f call h).0
  Step-IsStreamed s u (call_fails cmd a f call gone to) o h =
      subst (IsStreamed t start) (sym to) (Call-IsStreamed s cmd a f call h).1
  Step-IsStreamed s u (gets_read i x r up e to) o h = subst (IsStreamed t start) (sym to) (
      carried_on t laws start s s.stage (read_answered r) s.down s.commands s.next_reply s.conn h
        (Holds-answered x s.conn i r h.held e (subst (λ up. Holds up h.held) up h.holds)) h.leaves
        refl)
  Step-IsStreamed s u (writes_upstream buf up to) o h =
      let held : h.held ≡ buf = subst (λ up. Holds up h.held) up h.holds in
      subst (IsStreamed t start) (sym to) (record {
        held = [];
        holds = refl;
        upward =
            h.upward
            ∙ ap (λ b. s.carried ++ (b ++ t.unread s.socket)) held
            ∙ sym (append_assoc s.carried buf (t.unread s.socket));
        left = h.left;
        leaves = h.leaves;
        downward = h.downward;
        queued = h.queued;
      })
  Step-IsStreamed s u (upstream_fails buf up to) o h = subst (IsStreamed t start) (sym to) (
      carried_on t laws start s s.stage (up_ended false) s.down s.commands s.next_reply s.conn h tt
        h.leaves refl)
  Step-IsStreamed s u (reads_upstream x on down to) o h =
      let none_left : h.left ≡ [] = subst (λ d. Leaves d h.left) down h.leaves in
      let (leaves, same) = source_left x in
      subst (IsStreamed t start) (sym to) (record {
        held = h.held;
        holds = h.holds;
        upward = h.upward;
        left = bytes_of x;
        leaves = leaves;
        downward =
            ap (λ b. b ++ bytes_of x)
              (h.downward ∙ ap (◌++◌ s.accepted) none_left ∙ append-nil s.accepted);
        queued = h.queued ∙ ap (λ b. start ++ (s.accepted ++ b)) (ap gained down ∙ sym same);
      })
  Step-IsStreamed s u (gets_write slice i x r down e to) o h =
      let all : h.left ≡ slice = subst (λ d. Leaves d h.left) down h.leaves in
      let (left, leaves, parts, same) = written_on slice r in
      subst (IsStreamed t start) (sym to) (record {
        held = h.held;
        holds = h.holds;
        upward = h.upward;
        left = left;
        leaves = leaves;
        downward =
            h.downward
            ∙ ap (◌++◌ s.accepted) (all ∙ parts)
            ∙ sym (append_assoc s.accepted (accepted_of slice r) left);
        queued =
            h.queued
            ∙ ap (λ b. start ++ (s.accepted ++ b))
                (ap gained down ∙ gained-answered x s.conn slice i r e)
            ∙ ap (◌++◌ start) (sym (append-nil (s.accepted ++ accepted_of slice r)))
            ∙ ap (λ b. start ++ ((s.accepted ++ accepted_of slice r) ++ b)) (sym same);
      })
  Step-IsStreamed s u (gets_close_write i x r down e to) o h = subst (IsStreamed t start) (sym to) (
      carried_on t laws start s s.stage s.up (down_ended true) s.commands s.next_reply s.conn h
        h.holds (subst (λ d. Leaves d h.left) down h.leaves) (ap gained down))
  Step-IsStreamed s u (joins a b on up down to) o h = subst (IsStreamed t start) (sym to) (
      carried_on t laws start s _ s.up s.down s.commands s.next_reply s.conn h h.holds h.leaves
        refl)
  Step-IsStreamed s u (gets_close i x r stage e to) o h = subst (IsStreamed t start) (sym to) (
      carried_on t laws start s over s.up s.down s.commands s.next_reply s.conn h h.holds h.leaves
        refl)
  Step-IsStreamed s u (polls c at to) o h =
      subst (IsStreamed t start) (sym to)
        (polls_keep t laws (IsStreamed t start) s c (Move-IsStreamed t laws start) at (o, h)).1
  Step-IsStreamed s u (takes c cmd rest at head to) o h =
      subst (IsStreamed t start) (sym to)
        (takes_keep t laws (IsStreamed t start) s c cmd rest (Move-IsStreamed t laws start) at head
          (o, h)).1
  Step-IsStreamed s u (drops_conn c at stage empty to) o h =
      subst (IsStreamed t start)
        (sym (
          to
          ∙ ap (λ l. record (delivers t l s) { conn = none; socket = t.abort s.socket })
              (none_pending t s c at stage o)))
        (record {
          held = h.held;
          holds = h.holds;
          upward =
              h.upward ∙ ap (λ b. s.carried ++ (h.held ++ b)) (sym (laws.abort_unread s.socket));
          left = h.left;
          leaves = h.leaves;
          downward = h.downward;
          queued = laws.abort_queued s.socket ∙ h.queued;
        })
  Step-IsStreamed s u (actor_ends to) o h =
      subst (IsStreamed t start) (sym to)
        (carried_on t laws start s s.stage s.up s.down [] s.next_reply none h h.holds h.leaves refl)
  Step-IsStreamed s u (network socket new_bytes grown kept to) o h =
      subst (IsStreamed t start) (sym to) (record {
        held = h.held;
        holds = h.holds;
        upward =
            ap (λ b. b ++ new_bytes) h.upward
            ∙ append_assoc s.carried (h.held ++ t.unread s.socket) new_bytes
            ∙ ap (◌++◌ s.carried)
                (append_assoc h.held (t.unread s.socket) new_bytes ∙ ap (◌++◌ h.held) (sym grown));
        left = h.left;
        leaves = h.leaves;
        downward = h.downward;
        queued = kept ∙ h.queued;
      })

module _ (t : Tcp) (laws : TcpLaws t) where
  -- In every order in which the two copy loops, the actor and the network act, closes and the end of
  -- the actor included: what has come from the client is what the upstream was written, then what the
  -- upward loop holds, then what the socket has not given out yet; nothing is lost, doubled or moved,
  -- unless the loop has failed, when some bytes between the two may be lost. What was read from the
  -- upstream is what calls of `write` have accepted and then what the downward loop has left; and the
  -- socket was sent exactly what the calls accepted, with what a waiting answer says it took.
  pub relay-IsStreamed :
      (channel : ℕ) (socket : t.Socket) (s : Session t)
      → Reach t (opened t (new channel) socket) s
      → IsStreamed t (t.queued socket) s
  relay-IsStreamed channel socket _ here = record {
    held = [];
    holds = refl;
    upward = refl;
    left = [];
    leaves = refl;
    downward = refl;
    queued = sym (append-nil (t.queued socket));
  }
  relay-IsStreamed channel socket s (next {u} r st) =
      Step-IsStreamed t laws (t.queued socket) u s st (Reach-IsOrderly t laws channel socket u r)
        (relay-IsStreamed channel socket u r)
