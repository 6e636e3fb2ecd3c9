-- ===== src/Relay/Session/Requests.antt =====
-- How the requests of a relay of src/relay.rs change with its loops and its channel.
use smoltcp_socks.Common.{
  ℕ, ◌≡◌, inl, inr, refl, ap, sym, ◌∙◌, true, List, [], ◌∷◌, ◌++◌, Bytes, Option, none, some,
  Result, ok, err, append_assoc, ◌==◌, Bool-cases, drop,
}
use smoltcp_socks.Netstack.Vconn.{ConnCmd, read, write, close_write, close, VConnError}
use smoltcp_socks.Netstack.Conn.{ConnState}
use smoltcp_socks.Relay.Session.{
  Up, awaits_read, writes_all, up_ended, Down, reads_source, awaits_write, calls_close_write,
  awaits_close_write, down_ended, Stage, over, read_answered, write_answered, slice_left,
  source_read, outcome,
}
use smoltcp_socks.Relay.Session.Flight.{
  pending, reads_of, writes_of, close_writes_of, closes_of, wanted_read, wanted_write,
  wanted_close_write, wanted_close, IsUpServed, IsDownServed, has_ended_up, has_ended_down,
  IsJoined, IsInFlight, Requests,
}

reads_of-append : (k l : List ConnCmd) → reads_of (k ++ l) ≡ reads_of k ++ reads_of l
reads_of-append [] l = refl
reads_of-append (read n i ∷ k) l =
    ap (◌∷◌ (record { max_len = n; reply = i })) (reads_of-append k l)
reads_of-append (write b i ∷ k) l = reads_of-append k l
reads_of-append (close_write i ∷ k) l = reads_of-append k l
reads_of-append (close i ∷ k) l = reads_of-append k l

writes_of-append : (k l : List ConnCmd) → writes_of (k ++ l) ≡ writes_of k ++ writes_of l
writes_of-append [] l = refl
writes_of-append (read n i ∷ k) l = writes_of-append k l
writes_of-append (write b i ∷ k) l =
    ap (◌∷◌ (record { body = b; reply = i })) (writes_of-append k l)
writes_of-append (close_write i ∷ k) l = writes_of-append k l
writes_of-append (close i ∷ k) l = writes_of-append k l

close_writes_of-append :
    (k l : List ConnCmd) → close_writes_of (k ++ l) ≡ close_writes_of k ++ close_writes_of l
close_writes_of-append [] l = refl
close_writes_of-append (read n i ∷ k) l = close_writes_of-append k l
close_writes_of-append (write b i ∷ k) l = close_writes_of-append k l
close_writes_of-append (close_write i ∷ k) l = ap (◌∷◌ i) (close_writes_of-append k l)
close_writes_of-append (close i ∷ k) l = close_writes_of-append k l

closes_of-append : (k l : List ConnCmd) → closes_of (k ++ l) ≡ closes_of k ++ closes_of l
closes_of-append [] l = refl
closes_of-append (read n i ∷ k) l = closes_of-append k l
closes_of-append (write b i ∷ k) l = closes_of-append k l
closes_of-append (close_write i ∷ k) l = closes_of-append k l
closes_of-append (close i ∷ k) l = ap (◌∷◌ i) (closes_of-append k l)

-- A command more in the channel, of any kind.
pub one_more :
    (c : ConnState) (cmds : List ConnCmd) (cmd : ConnCmd) (stage stage' : Stage) (up up' : Up)
    (down down' : Down)
    → IsInFlight c cmds stage up down
    → wanted_read up ++ reads_of (cmd ∷ []) ≡ wanted_read up'
    → wanted_write down ++ writes_of (cmd ∷ []) ≡ wanted_write down'
    → wanted_close_write down ++ close_writes_of (cmd ∷ []) ≡ wanted_close_write down'
    → wanted_close stage ++ closes_of (cmd ∷ []) ≡ wanted_close stage'
    → IsInFlight c (cmds ++ cmd ∷ []) stage' up' down'
one_more c cmds cmd stage stage' up up' down down' f r w cw cl = record {
  reads =
      ap (◌++◌ (pending c.read)) (reads_of-append cmds (cmd ∷ []))
      ∙ sym (append_assoc (pending c.read) (reads_of cmds) (reads_of (cmd ∷ [])))
      ∙ ap (λ l. l ++ reads_of (cmd ∷ [])) f.reads
      ∙ r;
  writes =
      ap (◌++◌ (pending c.write)) (writes_of-append cmds (cmd ∷ []))
      ∙ sym (append_assoc (pending c.write) (writes_of cmds) (writes_of (cmd ∷ [])))
      ∙ ap (λ l. l ++ writes_of (cmd ∷ [])) f.writes
      ∙ w;
  close_writes =
      close_writes_of-append cmds (cmd ∷ [])
      ∙ ap (λ l. l ++ close_writes_of (cmd ∷ [])) f.close_writes
      ∙ cw;
  closes = closes_of-append cmds (cmd ∷ []) ∙ ap (λ l. l ++ closes_of (cmd ∷ [])) f.closes ∙ cl;
}

-- A change of the relay that asks for nothing more and nothing less.
pub rewanted :
    (conn : Option ConnState) (cmds : List ConnCmd) (stage stage' : Stage) (up up' : Up)
    (down down' : Down)
    → ((c : ConnState)
        → conn ≡ some c
        → (wanted_read up ≡ wanted_read up')
          × (wanted_write down ≡ wanted_write down')
          × (wanted_close_write down ≡ wanted_close_write down')
          × (wanted_close stage ≡ wanted_close stage'))
    → Requests conn cmds stage up down
    → Requests conn cmds stage' up' down'
rewanted none cmds stage stage' up up' down down' same h = h
rewanted (some c) cmds stage stage' up up' down down' same f =
    let (r, w, cw, cl) = same c refl in
    record {
      reads = f.reads ∙ r;
      writes = f.writes ∙ w;
      close_writes = f.close_writes ∙ cw;
      closes = f.closes ∙ cl;
    }

-- As long as the actor has the connection, the outcome of a call is its answer.
pub has_answer {ℓ} :
    {A : Type ℓ} (o : Option (Result A VConnError)) (conn : Option ConnState)
    (r : Result A VConnError) (c : ConnState)
    → outcome o conn ≡ some r
    → conn ≡ some c
    → o ≡ some r
has_answer (some x) conn r c e at = e
has_answer none none r c e at = absurd (cc at)
has_answer none (some d) r c e at = absurd (cc e)

pub wanted_read-answered : (r : Result Bytes VConnError) → wanted_read (read_answered r) ≡ []
unfolding read_answered
wanted_read-answered (err e) = refl
wanted_read-answered (ok []) = refl
wanted_read-answered (ok (c ∷ b)) = refl

pub IsUpServed-answered : (r : Result Bytes VConnError) → IsUpServed (read_answered r)
unfolding read_answered
IsUpServed-answered (err e) = tt
IsUpServed-answered (ok []) = tt
IsUpServed-answered (ok (c ∷ b)) = tt

-- A downward loop that neither waits for an answer.
abbrev pub IsFree : Down → Type 0
IsFree down = (wanted_write down ≡ []) × (wanted_close_write down ≡ []) × IsDownServed down

IsFree-left : (s : Bytes) → IsFree (slice_left s)
unfolding slice_left
IsFree-left [] = (refl, refl, tt)
IsFree-left (c ∷ s) = (refl, refl, tt)

pub IsFree-written : (slice : Bytes) (r : Result ℕ VConnError) → IsFree (write_answered slice r)
unfolding write_answered
IsFree-written slice (err e) = (refl, refl, tt)
IsFree-written slice (ok w) = elim (Bool-cases (w == 0)) [
  | inl e ↦ rw e (refl, refl, tt)
  | inr e ↦ rw e (IsFree-left (drop w slice))
]

pub IsFree-read : (o : Option Bytes) → IsFree (source_read o)
unfolding source_read
IsFree-read none = (refl, refl, tt)
IsFree-read (some []) = (refl, refl, tt)
IsFree-read (some (c ∷ b)) = (refl, refl, tt)

pub ended_reads : (up : Up) → has_ended_up up ≡ true → wanted_read up ≡ []
ended_reads (up_ended b) h = refl
ended_reads Up.calls_read h = refl
ended_reads (writes_all b) h = refl
ended_reads (awaits_read i o) h = absurd (cc h)

pub ended_writes :
    (down : Down)
    → has_ended_down down ≡ true
    → (wanted_write down ≡ []) × (wanted_close_write down ≡ [])
ended_writes (down_ended b) h = (refl, refl)
ended_writes reads_source h = (refl, refl)
ended_writes (Down.calls_write slice) h = (refl, refl)
ended_writes calls_close_write h = (refl, refl)
ended_writes (awaits_write slice i o) h = absurd (cc h)
ended_writes (awaits_close_write i o) h = absurd (cc h)

-- Nothing is asked for behind the end of `pipe`.
pub over_idle :
    (up : Up) (down : Down)
    → IsJoined over up down
    → (wanted_read up ≡ []) × (wanted_write down ≡ [])
over_idle up down (inl h) = (ap wanted_read h.0, ap wanted_write h.1)
over_idle up down (inr h) = (ended_reads up h.0, (ended_writes down h.1).0)

pub nothing_pending {ℓ} : {A : Type ℓ} (o : Option A) (l : List A) → pending o ++ l ≡ [] → o ≡ none
nothing_pending none l h = refl
nothing_pending (some a) l h = absurd (cc h)
