-- ===== src/Relay/Session/Moves.antt =====
-- What can become of the requests of a relay of src/relay.rs in a round of the actor.
use smoltcp_socks.Common.{
  ℕ, ◌≡◌, ◌≢◌, inl, inr, ap, sym, subst, ◌∙◌, false, List, [], ◌∷◌, ◌++◌, Bytes, none, some, Result,
  ok,
}
use smoltcp_socks.Netstack.Vconn.{ConnCmd, read, write, close_write, close, VConnError}
use smoltcp_socks.Netstack.Socket.{Tcp}
use smoltcp_socks.Netstack.Conn.{ConnState}
use smoltcp_socks.Relay.Session.{
  Up, calls_read, awaits_read, Down, reads_source, awaits_write, awaits_close_write, Stage, dialing,
  piping, calls_close, over, awaits_close, Session, accepted_of,
}
use smoltcp_socks.Relay.Session.Flight.{
  pending, reads_of, writes_of, close_writes_of, closes_of, wanted_write, wanted_close_write,
  IsServed, has_ended_up, has_ended_down, IsJoined, IsInFlight, Requests, got, IsOrderly,
}

module _ (t : Tcp) where
  -- What a round of the actor is made of.
  pub data Move (s u : Session t) : Type 0 where
    rests : u ≡ s → Move s u
    answers_read :
        (c : ConnState) (i : ℕ) (r : Result Bytes VConnError) (socket : t.Socket)
        → s.conn ≡ some c
        → s.up ≡ awaits_read i none
        → reads_of s.commands ≡ []
        → IsServed r
        → t.unread s.socket ≡ got r ++ t.unread socket
        → t.queued socket ≡ t.queued s.socket
        → u ≡ record s {
          up = awaits_read i (some r);
          conn = some (record c { read = none });
          socket = socket;
        }
        → Move s u
    answers_write :
        (c : ConnState) (slice : Bytes) (i : ℕ) (r : Result ℕ VConnError) (socket : t.Socket)
        → s.conn ≡ some c
        → s.down ≡ awaits_write slice i none
        → writes_of s.commands ≡ []
        → IsServed r
        → t.queued socket ≡ t.queued s.socket ++ accepted_of slice r
        → t.unread socket ≡ t.unread s.socket
        → u ≡ record s {
          down = awaits_write slice i (some r);
          conn = some (record c { write = none });
          socket = socket;
        }
        → Move s u
    takes_read :
        (c : ConnState) (max_len i : ℕ) (rest : List ConnCmd)
        → s.conn ≡ some c
        → s.commands ≡ read max_len i ∷ rest
        → c.read ≡ none
        → u ≡ record s {
          commands = rest;
          conn = some (record c { read = some (record { max_len = max_len; reply = i }) });
        }
        → Move s u
    takes_write :
        (c : ConnState) (body : Bytes) (i : ℕ) (rest : List ConnCmd)
        → s.conn ≡ some c
        → s.commands ≡ write body i ∷ rest
        → c.write ≡ none
        → u ≡ record s {
          commands = rest;
          conn = some (record c { write = some (record { body = body; reply = i }) });
        }
        → Move s u
    answers_close_write :
        (c : ConnState) (i : ℕ) (rest : List ConnCmd)
        → s.conn ≡ some c
        → s.commands ≡ close_write i ∷ rest
        → s.down ≡ awaits_close_write i none
        → close_writes_of rest ≡ []
        → u ≡ record s {
          commands = rest;
          down = awaits_close_write i (some (ok tt));
          conn = some c;
          socket = t.close s.socket;
        }
        → Move s u
    answers_close :
        (c : ConnState) (i : ℕ) (rest : List ConnCmd)
        → s.conn ≡ some c
        → s.commands ≡ close i ∷ rest
        → s.stage ≡ awaits_close i none
        → closes_of rest ≡ []
        → u ≡ record s {
          commands = rest;
          stage = awaits_close i (some (ok tt));
          conn = some c;
          socket = t.abort s.socket;
        }
        → Move s u

-- A loop that has begun and has not ended runs in `piping`.
pub up_runs :
    (stage : Stage) (up up' : Up) (down : Down)
    → up ≢ calls_read
    → has_ended_up up ≡ false
    → IsJoined stage up down
    → IsJoined stage up' down
up_runs dialing up up' down begun runs h = absurd (begun h.0)
up_runs piping up up' down begun runs h = tt
up_runs calls_close up up' down begun runs h = absurd (cc (runs, h.0))
up_runs (awaits_close j p) up up' down begun runs h = absurd (cc (runs, h.0))
up_runs over up up' down begun runs (inl h) = absurd (begun h.0)
up_runs over up up' down begun runs (inr h) = absurd (cc (runs, h.0))

pub down_runs :
    (stage : Stage) (up : Up) (down down' : Down)
    → down ≢ reads_source
    → has_ended_down down ≡ false
    → IsJoined stage up down
    → IsJoined stage up down'
down_runs dialing up down down' begun runs h = absurd (begun h.1)
down_runs piping up down down' begun runs h = tt
down_runs calls_close up down down' begun runs h = absurd (cc (runs, h.1))
down_runs (awaits_close j p) up down down' begun runs h = absurd (cc (runs, h.1))
down_runs over up down down' begun runs (inl h) = absurd (begun h.1)
down_runs over up down down' begun runs (inr h) = absurd (cc (runs, h.1))

module _ (t : Tcp) where
  pub InFlight-at :
      (s : Session t) (c : ConnState)
      → s.conn ≡ some c
      → IsOrderly t s
      → IsInFlight c s.commands s.stage s.up s.down
  InFlight-at s c at h = subst (λ o. Requests o s.commands s.stage s.up s.down) at h.requests

  pub Move-IsOrderly : (s u : Session t) → Move t s u → IsOrderly t s → IsOrderly t u
  Move-IsOrderly s u (rests to) h = subst (IsOrderly t) (sym to) h
  Move-IsOrderly s u (answers_read c i r socket at up alone served taken kept to) h =
      let f = InFlight-at s c at h in
      subst (IsOrderly t) (sym to) (record {
        requests = record {
          reads = alone;
          writes = f.writes;
          close_writes = f.close_writes;
          closes = f.closes;
        };
        up_served = served;
        down_served = h.down_served;
        joined =
            up_runs s.stage s.up (awaits_read i (some r)) s.down (λ e. cc (e, up))
              (ap has_ended_up up) h.joined;
      })
  Move-IsOrderly s u (answers_write c slice i r socket at down alone served taken kept to) h =
      let f = InFlight-at s c at h in
      subst (IsOrderly t) (sym to) (record {
        requests = record {
          reads = f.reads;
          writes = alone;
          close_writes = f.close_writes ∙ ap wanted_close_write down;
          closes = f.closes;
        };
        up_served = h.up_served;
        down_served = served;
        joined =
            down_runs s.stage s.up s.down (awaits_write slice i (some r)) (λ e. cc (e, down))
              (ap has_ended_down down) h.joined;
      })
  Move-IsOrderly s u (takes_read c max_len i rest at head idle to) h =
      let f = InFlight-at s c at h in
      subst (IsOrderly t) (sym to) (record {
        requests = record {
          reads =
              sym (ap (λ o. pending o ++ reads_of s.commands) idle ∙ ap reads_of head) ∙ f.reads;
          writes = ap (λ l. pending c.write ++ writes_of l) (sym head) ∙ f.writes;
          close_writes = ap close_writes_of (sym head) ∙ f.close_writes;
          closes = ap closes_of (sym head) ∙ f.closes;
        };
        up_served = h.up_served;
        down_served = h.down_served;
        joined = h.joined;
      })
  Move-IsOrderly s u (takes_write c body i rest at head idle to) h =
      let f = InFlight-at s c at h in
      subst (IsOrderly t) (sym to) (record {
        requests = record {
          reads = ap (λ l. pending c.read ++ reads_of l) (sym head) ∙ f.reads;
          writes =
              sym (ap (λ o. pending o ++ writes_of s.commands) idle ∙ ap writes_of head) ∙ f.writes;
          close_writes = ap close_writes_of (sym head) ∙ f.close_writes;
          closes = ap closes_of (sym head) ∙ f.closes;
        };
        up_served = h.up_served;
        down_served = h.down_served;
        joined = h.joined;
      })
  Move-IsOrderly s u (answers_close_write c i rest at head down alone to) h =
      let f = InFlight-at s c at h in
      subst (IsOrderly t) (sym to) (record {
        requests = record {
          reads = ap (λ l. pending c.read ++ reads_of l) (sym head) ∙ f.reads;
          writes =
              ap (λ l. pending c.write ++ writes_of l) (sym head) ∙ f.writes ∙ ap wanted_write down;
          close_writes = alone;
          closes = ap closes_of (sym head) ∙ f.closes;
        };
        up_served = h.up_served;
        down_served = tt;
        joined =
            down_runs s.stage s.up s.down (awaits_close_write i (some (ok tt))) (λ e. cc (e, down))
              (ap has_ended_down down) h.joined;
      })
  Move-IsOrderly s u (answers_close c i rest at head stage alone to) h =
      let f = InFlight-at s c at h in
      subst (IsOrderly t) (sym to) (record {
        requests = record {
          reads = ap (λ l. pending c.read ++ reads_of l) (sym head) ∙ f.reads;
          writes = ap (λ l. pending c.write ++ writes_of l) (sym head) ∙ f.writes;
          close_writes = ap close_writes_of (sym head) ∙ f.close_writes;
          closes = alone;
        };
        up_served = h.up_served;
        down_served = h.down_served;
        joined = subst (λ g. IsJoined g s.up s.down) stage h.joined;
      })

  -- What every move of an orderly relay keeps.
  abbrev pub Keeps : (Session t → Type 0) → Type 0
  Keeps P = (s u : Session t) → Move t s u → IsOrderly t s → P s → P u
