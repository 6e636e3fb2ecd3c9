-- ===== src/Relay/Session/Answers.antt =====
-- Which call of a relay of src/relay.rs a request and its answer belong to.
use smoltcp_socks.Common.{
  ℕ, ◌≡◌, refl, ap, subst, ◌∙◌, Bool, true, List, [], ◌∷◌, Bytes, none, some, Result, ==_refl,
  if◌then◌else◌,
}
use smoltcp_socks.Netstack.Vconn.{VConnError}
use smoltcp_socks.Netstack.Socket.{Tcp}
use smoltcp_socks.Netstack.Conn.{PendingRead, PendingWrite, read_reply, write_reply, close_reply}
use smoltcp_socks.Relay.{relay_buf}
use smoltcp_socks.Relay.Session.{
  Up, calls_read, awaits_read, writes_all, up_ended, Down, reads_source, calls_write, awaits_write,
  calls_close_write, awaits_close_write, down_ended, Stage, dialing, piping, calls_close, over,
  awaits_close, Session, route_up, route_down, route_stage, deliver,
}
use smoltcp_socks.Relay.Session.Flight.{
  wanted_read, wanted_write, wanted_close_write, wanted_close, IsJoined, has_ended_down,
}

-- A request that is in flight is the one that the relay waits for, and the only one of its kind.
pub one_read :
    (r : PendingRead) (rest : List PendingRead) (up : Up)
    → r ∷ rest ≡ wanted_read up
    → (i : ℕ) × (up ≡ awaits_read i none)
      × (r ≡ record { max_len = relay_buf; reply = i })
      × (rest ≡ [])
one_read r rest (awaits_read i none) e = (i, refl, cc e, cc e)
one_read r rest (awaits_read i (some x)) e = absurd (cc e)
one_read r rest calls_read e = absurd (cc e)
one_read r rest (writes_all b) e = absurd (cc e)
one_read r rest (up_ended b) e = absurd (cc e)

pub one_write :
    (w : PendingWrite) (rest : List PendingWrite) (down : Down)
    → w ∷ rest ≡ wanted_write down
    → (slice : Bytes) × (i : ℕ) × (down ≡ awaits_write slice i none)
      × (w ≡ record { body = slice; reply = i })
      × (rest ≡ [])
one_write w rest (awaits_write slice i none) e = (slice, i, refl, cc e, cc e)
one_write w rest (awaits_write slice i (some x)) e = absurd (cc e)
one_write w rest reads_source e = absurd (cc e)
one_write w rest (calls_write slice) e = absurd (cc e)
one_write w rest calls_close_write e = absurd (cc e)
one_write w rest (awaits_close_write i o) e = absurd (cc e)
one_write w rest (down_ended b) e = absurd (cc e)

pub one_close_write :
    (i : ℕ) (rest : List ℕ) (down : Down)
    → i ∷ rest ≡ wanted_close_write down
    → (down ≡ awaits_close_write i none) × (rest ≡ [])
one_close_write i rest (awaits_close_write j none) e = (cc e, cc e)
one_close_write i rest (awaits_close_write j (some x)) e = absurd (cc e)
one_close_write i rest reads_source e = absurd (cc e)
one_close_write i rest (calls_write slice) e = absurd (cc e)
one_close_write i rest calls_close_write e = absurd (cc e)
one_close_write i rest (awaits_write slice j o) e = absurd (cc e)
one_close_write i rest (down_ended b) e = absurd (cc e)

pub one_close :
    (i : ℕ) (rest : List ℕ) (stage : Stage)
    → i ∷ rest ≡ wanted_close stage
    → (stage ≡ awaits_close i none) × (rest ≡ [])
one_close i rest (awaits_close j none) e = (cc e, cc e)
one_close i rest (awaits_close j (some x)) e = absurd (cc e)
one_close i rest dialing e = absurd (cc e)
one_close i rest piping e = absurd (cc e)
one_close i rest calls_close e = absurd (cc e)
one_close i rest over e = absurd (cc e)

module _ (t : Tcp) where
  pub deliver_read :
      (s : Session t) (i : ℕ) (r : Result Bytes VConnError)
      → s.up ≡ awaits_read i none
      → deliver t (read_reply i r) s ≡ record s { up = awaits_read i (some r) }
  unfolding deliver route_up route_down route_stage
  deliver_read s i r e =
      ap (λ up. record s { up = up })
        (ap (route_up (read_reply i r)) e
          ∙ ap (λ (b : Bool). if b then awaits_read i (some r) else awaits_read i none) (==_refl i))

  pub deliver_write :
      (s : Session t) (slice : Bytes) (i : ℕ) (r : Result ℕ VConnError)
      → s.down ≡ awaits_write slice i none
      → deliver t (write_reply i r) s ≡ record s { down = awaits_write slice i (some r) }
  unfolding deliver route_up route_down route_stage
  deliver_write s slice i r e =
      ap (λ down. record s { down = down })
        (ap (route_down (write_reply i r)) e
          ∙ ap
              (λ (b : Bool). if b then awaits_write slice i (some r) else awaits_write slice i none)
              (==_refl i))

  pub deliver_close_write :
      (s : Session t) (i : ℕ) (r : Result (Unit {0}) VConnError)
      → s.down ≡ awaits_close_write i none
      → IsJoined s.stage s.up s.down
      → deliver t (close_reply i r) s ≡ record s { down = awaits_close_write i (some r) }
  unfolding deliver route_up route_down route_stage
  deliver_close_write s i r e h = λ k. record s {
    stage = still_open s.stage s.up s.down i r e h k;
    down =
        (ap (route_down (close_reply i r)) e
            ∙ ap
                (λ (b : Bool).
                  if b then awaits_close_write i (some r) else awaits_close_write i none)
                (==_refl i))
          k;
  }
    where
      still_open :
          (stage : Stage) (up : Up) (down : Down) (i : ℕ) (r : Result (Unit {0}) VConnError)
          → down ≡ awaits_close_write i none
          → IsJoined stage up down
          → route_stage (close_reply i r) stage ≡ stage
      still_open dialing up down i r e h = refl
      still_open piping up down i r e h = refl
      still_open calls_close up down i r e h = refl
      still_open over up down i r e h = refl
      still_open (awaits_close j o) up down i r e h = absurd (cc (ap has_ended_down e, h.1))

  pub deliver_close :
      (s : Session t) (i : ℕ) (r : Result (Unit {0}) VConnError)
      → s.stage ≡ awaits_close i none
      → IsJoined s.stage s.up s.down
      → deliver t (close_reply i r) s ≡ record s { stage = awaits_close i (some r) }
  unfolding deliver route_up route_down route_stage
  deliver_close s i r e h = λ k. record s {
    stage =
        (ap (route_stage (close_reply i r)) e
            ∙ ap (λ (b : Bool). if b then awaits_close i (some r) else awaits_close i none)
                (==_refl i))
          k;
    down = over_down s.down i r (subst (λ g. IsJoined g s.up s.down) e h).1 k;
  }
    where
      over_down :
          (down : Down) (i : ℕ) (r : Result (Unit {0}) VConnError)
          → has_ended_down down ≡ true
          → route_down (close_reply i r) down ≡ down
      over_down (down_ended b) i r h = refl
      over_down reads_source i r h = absurd (cc h)
      over_down (calls_write slice) i r h = absurd (cc h)
      over_down (awaits_write slice j o) i r h = absurd (cc h)
      over_down calls_close_write i r h = absurd (cc h)
      over_down (awaits_close_write j o) i r h = absurd (cc h)
