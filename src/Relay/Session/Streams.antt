-- ===== src/Relay/Session/Streams.antt =====
-- The bytes that a relay of src/relay.rs carries through src/netstack/vconn.rs and
-- src/netstack/actor.rs, from the socket to the upstream and back.
use smoltcp_socks.Common.{
  ℕ, ◌≡◌, refl, ap, sym, subst, ◌∙◌, true, false, List, [], ◌++◌, Bytes, Option, none, some,
  append_assoc, append-nil,
}
use smoltcp_socks.Netstack.Vconn.{ConnCmd}
use smoltcp_socks.Netstack.Socket.{Tcp, TcpLaws}
use smoltcp_socks.Netstack.Conn.{ConnState}
use smoltcp_socks.Relay.Session.{
  Stage, Up, awaits_read, writes_all, up_ended, Down, reads_source, awaits_write, calls_close_write,
  awaits_close_write, down_ended, accepted_of, Session,
}
use smoltcp_socks.Relay.Session.Flight.{got}
use smoltcp_socks.Relay.Session.Moves.{
  rests, answers_read, answers_write, takes_read, takes_write, answers_close_write, answers_close,
  Keeps,
}

-- The bytes that the upward loop holds: an answer that waits for it, or what it writes. If the loop
-- has failed, it may have lost some.
abbrev pub Holds : Up → Bytes → Type 0
Holds (awaits_read i none) b = b ≡ []
Holds (awaits_read i (some r)) b = b ≡ got r
Holds (writes_all buf) b = b ≡ buf
Holds Up.calls_read b = b ≡ []
Holds (up_ended true) b = b ≡ []
Holds (up_ended false) b = Unit

-- The bytes that the downward loop has still to write.
abbrev pub Leaves : Down → Bytes → Type 0
Leaves reads_source b = b ≡ []
Leaves (Down.calls_write slice) b = b ≡ slice
Leaves (awaits_write slice i o) b = b ≡ slice
Leaves calls_close_write b = b ≡ []
Leaves (awaits_close_write i o) b = b ≡ []
Leaves (down_ended true) b = b ≡ []
Leaves (down_ended false) b = Unit

-- Those of them that the socket has, as an answer says that waits for the loop.
abbrev pub gained : Down → Bytes
gained (awaits_write slice i (some r)) = accepted_of slice r
gained (awaits_write slice i none) = []
gained reads_source = []
gained (Down.calls_write slice) = []
gained calls_close_write = []
gained (awaits_close_write i o) = []
gained (down_ended b) = []

module _ (t : Tcp) where
  -- `start` is what the socket was sent before.
  pub record IsStreamed (start : Bytes) (s : Session t) : Type 0 where
    pub held : Bytes
    pub holds : Holds s.up held
    pub upward : s.arrived ≡ s.carried ++ (held ++ t.unread s.socket)
    pub left : Bytes
    pub leaves : Leaves s.down left
    pub downward : s.source ≡ s.accepted ++ left
    pub queued : t.queued s.socket ≡ start ++ (s.accepted ++ gained s.down)

  module _ (laws : TcpLaws t) (start : Bytes) where
    -- A change of the relay that moves no byte past the socket.
    pub carried_on :
        (s : Session t) (stage' : Stage) (up' : Up) (down' : Down) (commands' : List ConnCmd)
        (next' : ℕ) (conn' : Option ConnState) (h : IsStreamed start s)
        → Holds up' h.held
        → Leaves down' h.left
        → gained s.down ≡ gained down'
        → IsStreamed start (record s {
          stage = stage';
          up = up';
          down = down';
          commands = commands';
          next_reply = next';
          conn = conn';
        })
    carried_on s stage' up' down' commands' next' conn' h holds leaves same = record {
      held = h.held;
      holds = holds;
      upward = h.upward;
      left = h.left;
      leaves = leaves;
      downward = h.downward;
      queued = h.queued ∙ ap (λ l. start ++ (s.accepted ++ l)) same;
    }

    pub Move-IsStreamed : Keeps t (IsStreamed start)
    Move-IsStreamed s u (rests to) o h = subst (IsStreamed start) (sym to) h
    Move-IsStreamed s u (answers_read c i r socket at up alone served taken kept to) o h =
        let none_held : h.held ≡ [] = subst (λ up. Holds up h.held) up h.holds in
        subst (IsStreamed start) (sym to) (record {
          held = got r;
          holds = refl;
          upward =
              h.upward
              ∙ ap (λ b. s.carried ++ (b ++ t.unread s.socket)) none_held
              ∙ ap (◌++◌ s.carried) taken;
          left = h.left;
          leaves = h.leaves;
          downward = h.downward;
          queued = kept ∙ h.queued;
        })
    Move-IsStreamed s u (answers_write c slice i r socket at down alone served taken kept to) o h =
        subst (IsStreamed start) (sym to) (record {
          held = h.held;
          holds = h.holds;
          upward = h.upward ∙ ap (λ b. s.carried ++ (h.held ++ b)) (sym kept);
          left = h.left;
          leaves = subst (λ d. Leaves d h.left) down h.leaves;
          downward = h.downward;
          queued =
              taken
              ∙ ap (λ b. b ++ accepted_of slice r)
                  (h.queued
                    ∙ ap (λ d. start ++ (s.accepted ++ gained d)) down
                    ∙ ap (◌++◌ start) (append-nil s.accepted))
              ∙ append_assoc start s.accepted (accepted_of slice r);
        })
    Move-IsStreamed s u (takes_read c max_len i rest at head idle to) o h =
        subst (IsStreamed start) (sym to) (record {
          held = h.held;
          holds = h.holds;
          upward = h.upward;
          left = h.left;
          leaves = h.leaves;
          downward = h.downward;
          queued = h.queued;
        })
    Move-IsStreamed s u (takes_write c body i rest at head idle to) o h =
        subst (IsStreamed start) (sym to) (record {
          held = h.held;
          holds = h.holds;
          upward = h.upward;
          left = h.left;
          leaves = h.leaves;
          downward = h.downward;
          queued = h.queued;
        })
    Move-IsStreamed s u (answers_close_write c i rest at head down alone to) o h =
        subst (IsStreamed start) (sym to) (record {
          held = h.held;
          holds = h.holds;
          upward =
              h.upward ∙ ap (λ b. s.carried ++ (h.held ++ b)) (sym (laws.close_unread s.socket));
          left = h.left;
          leaves = subst (λ d. Leaves d h.left) down h.leaves;
          downward = h.downward;
          queued =
              laws.close_queued s.socket
              ∙ h.queued
              ∙ ap (λ d. start ++ (s.accepted ++ gained d)) down;
        })
    Move-IsStreamed s u (answers_close c i rest at head stage alone to) o h =
        subst (IsStreamed start) (sym to) (record {
          held = h.held;
          holds = h.holds;
          upward =
              h.upward ∙ ap (λ b. s.carried ++ (h.held ++ b)) (sym (laws.abort_unread s.socket));
          left = h.left;
          leaves = h.leaves;
          downward = h.downward;
          queued = laws.abort_queued s.socket ∙ h.queued;
        })
