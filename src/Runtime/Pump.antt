-- ===== src/Runtime/Pump.antt =====
-- src/runtime.rs: opening the TUN device, and the pump. The `tun` crate is a parameter.
mod Opening
pub mod Queue
pub mod Flow
pub mod Safety
pub mod Links
pub mod Drain
mod Closed
mod Runs
pub mod Examples
use smoltcp_socks.Common.{
  ℕ, ◌≡◌, Bool, true, false, List, [], ◌∷◌, ◌++◌, Option, none, some, Bytes, Result, ok, err, ◌>>=◌,
}
use smoltcp_socks.Mpsc.{Mpsc}
use smoltcp_socks.Device.{Packet, Bridge}
use smoltcp_socks.Runtime.{tun_mtu, parse_tun_name}

-- What the code uses of the `tun` crate. `is_up`, `mtu_of` and `name_of` serve the laws alone.
pub record Tun : Type 1 where
  pub Configuration : Type 0
  pub AsyncDevice : Type 0
  pub CreateError : Type 0
  pub default : Configuration
  pub up : Configuration → Configuration
  pub mtu : ℕ → Configuration → Configuration
  pub tun_name : Bytes → Configuration → Configuration
  pub create_as_async : Configuration → Result AsyncDevice CreateError
  pub is_up : Configuration → Bool
  pub mtu_of : Configuration → Option ℕ
  pub name_of : Configuration → Option Bytes

pub record TunLaws (tun : Tun) : Type 0 where
  pub default_unnamed : tun.name_of tun.default ≡ none
  pub up_up : (c : tun.Configuration) → tun.is_up (tun.up c) ≡ true
  pub up_name : (c : tun.Configuration) → tun.name_of (tun.up c) ≡ tun.name_of c
  pub mtu_mtu : (n : ℕ) (c : tun.Configuration) → tun.mtu_of (tun.mtu n c) ≡ some n
  pub mtu_up : (n : ℕ) (c : tun.Configuration) → tun.is_up (tun.mtu n c) ≡ tun.is_up c
  pub mtu_name : (n : ℕ) (c : tun.Configuration) → tun.name_of (tun.mtu n c) ≡ tun.name_of c
  pub name_name : (s : Bytes) (c : tun.Configuration) → tun.name_of (tun.tun_name s c) ≡ some s
  pub name_up : (s : Bytes) (c : tun.Configuration) → tun.is_up (tun.tun_name s c) ≡ tun.is_up c
  pub name_mtu : (s : Bytes) (c : tun.Configuration) → tun.mtu_of (tun.tun_name s c) ≡ tun.mtu_of c

module _ (tun : Tun) where
  pub data OpenError : Type 0 where
    bad_name : OpenError
    create_tun : tun.CreateError → OpenError

  name_or_bad : Result (Option Bytes) (Unit {0}) → Result (Option Bytes) OpenError
  name_or_bad (ok name) = ok name
  name_or_bad (err e) = err bad_name

  set_name : Option Bytes → tun.Configuration → tun.Configuration
  set_name none c = c
  set_name (some name) c = tun.tun_name name c

  -- The configuration that `open_tun` gives to `create_as_async`.
  pub configuration : Option Bytes → ℕ → tun.Configuration
  unfolding set_name
  configuration name mtu = set_name name (tun.mtu (tun_mtu mtu) (tun.up tun.default))

  created : Result tun.AsyncDevice tun.CreateError → Result tun.AsyncDevice OpenError
  created (ok dev) = ok dev
  created (err e) = err (create_tun e)

  pub open_tun : Bool → Bytes → ℕ → Result tun.AsyncDevice OpenError
  unfolding name_or_bad created
  open_tun apple spec mtu = name_or_bad (parse_tun_name apple spec) >>= λ name.
      created (tun.create_as_async (configuration name mtu))

-- One round of the pump's `select!`: a read of the device, which gives a packet or fails, or the
-- outbound channel with what the write of its packet gives.
pub data PumpEvent : Type 0 where
  tun_read : Option Packet → PumpEvent
  outbound_ready : Bool → PumpEvent

module _ (m : Mpsc Packet) where
  -- The bridge, the packets written to the device, and whether the pump still runs.
  pub record Pumping : Type 0 where
    pub bridge : Bridge m
    pub written : List Packet
    pub running : Bool

  -- The pump as it is spawned.
  abbrev pub starting : Bridge m → Pumping
  starting bridge = record { bridge = bridge; written = []; running = true }

  -- The end of the task drops its two ends.
  pub leave : Pumping → Pumping
  leave s = record s {
    bridge = record s.bridge {
      inbound = m.drop_sender s.bridge.inbound;
      outbound = m.drop_receiver s.bridge.outbound;
    };
    running = false;
  }

  -- A packet for which there is no room is dropped.
  on_read : Option Packet → Pumping → Pumping
  unfolding leave
  on_read none s = leave s
  on_read (some pkt) s = record s {
    bridge = record s.bridge { inbound = (m.try_send pkt s.bridge.inbound).1 };
  }

  write_packet : Bool → Packet → List Packet → List Packet
  write_packet true p l = l ++ p ∷ []
  write_packet false p l = l

  -- `none` is a `recv` that waits: the branch is not taken.
  on_outbound : Bool → Option (Option Packet × m.Chan) → Pumping → Pumping
  unfolding leave write_packet
  on_outbound written none s = s
  on_outbound written (some (none, c)) s =
      leave (record s { bridge = record s.bridge { outbound = c } })
  on_outbound written (some (some p, c)) s = record s {
    bridge = record s.bridge { outbound = c };
    written = write_packet written p s.written;
  }

  unfoldable pub pump_round : PumpEvent → Pumping → Pumping
  unfolding on_read on_outbound
  pump_round (tun_read pkt) s = on_read pkt s
  pump_round (outbound_ready written) s = on_outbound written (m.recv s.bridge.outbound) s

  -- The loop of `tun_pump`, over the events that take place.
  pump : List PumpEvent → Pumping → Pumping
  unfolding pump_round
  pump [] s = s
  pump (e ∷ events) s =
      let u = pump_round e s in elim u.running [ true ↦ pump events u | false ↦ u ]

  pump_device : {D E : Type 0} → Result D E → List PumpEvent → Pumping → Pumping
  unfolding pump leave
  pump_device (ok dev) events s = pump events s
  pump_device (err e) events s = leave s

  pub tun_pump : Tun → Bool → Bytes → ℕ → List PumpEvent → Pumping → Pumping
  unfolding pump_device
  tun_pump tun apple spec mtu events s = pump_device (open_tun tun apple spec mtu) events s
