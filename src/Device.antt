-- ===== src/Device.antt =====
-- src/device.rs: the bridge between the TUN pump and smoltcp. The two ends of a channel share its
-- state, so that a `Bridge` holds `Phy` with both channels: what `Phy` reads and writes, and what the
-- pump does through its `DeviceHandles`.
pub mod Receive
mod Examples
use smoltcp_socks.Common.{
  ℕ, zero, suc, Bool, true, false, List, [], ◌∷◌, ◌++◌, Option, none, some, Bytes, replicate,
}
use smoltcp_socks.Mpsc.{Mpsc}

abbrev pub queue_depth : ℕ
queue_depth = 1024

abbrev pub Packet : Type 0
Packet = Bytes

pub data Medium : Type 0 where
  medium_ip medium_ethernet : Medium

abbrev pub medium : Medium
medium = medium_ip

pub record Phy : Type 0 where
  pub inbound_buf : List Packet
  pub mtu : ℕ

pub record DeviceCapabilities : Type 0 where
  pub medium : Medium
  pub max_transmission_unit : ℕ

unfoldable pub capabilities : Phy → DeviceCapabilities
capabilities p = record { medium = medium; max_transmission_unit = p.mtu }

pub record RxToken : Type 0 where
  pub buffer : Packet

-- It stands for the sender of the outbound channel.
pub data TxToken : Type 0 where
  outbound_tx : TxToken

-- `RxToken::consume`
pub rx_consume {ℓ} : {R : Type ℓ} → RxToken → (Bytes → R) → R
rx_consume t f = f t.buffer

module _ (m : Mpsc Packet) where
  pub record Bridge : Type 0 where
    pub phy : Phy
    pub inbound : m.Chan
    pub outbound : m.Chan

  -- `Phy::new`
  unfoldable pub new : ℕ → Bridge
  new mtu = record {
    phy = record { inbound_buf = []; mtu = mtu };
    inbound = m.channel queue_depth;
    outbound = m.channel queue_depth;
  }

  push_back : Option Packet × m.Chan → Bridge → Bool × Bridge
  push_back (none, c) b = (false, record b { inbound = c })
  push_back (some pkt, c) b = (
    true,
    record b { phy = record b.phy { inbound_buf = b.phy.inbound_buf ++ pkt ∷ [] }; inbound = c },
  )

  -- One test of `while let Ok(pkt) = try_recv()`, and the body if it holds.
  pub take_in : Bridge → Bool × Bridge
  unfolding push_back
  take_in b = push_back (m.try_recv b.inbound) b

  -- The loop, with fuel.
  refill : ℕ → Bridge → Option Bridge
  unfolding take_in
  refill zero b = none
  refill (suc n) b =
      let (more, b') = take_in b in elim more [ true ↦ refill n b' | false ↦ some b' ]

  popped : List Packet → Bridge → Option (RxToken × TxToken) × Bridge
  popped [] b = (none, b)
  popped (pkt ∷ buf) b = (
    some (record { buffer = pkt }, outbound_tx),
    record b { phy = record b.phy { inbound_buf = buf } },
  )

  -- `inbound_buf.pop_front()?` and the tokens
  pub pop_front : Bridge → Option (RxToken × TxToken) × Bridge
  unfolding popped
  pop_front b = popped b.phy.inbound_buf b

  then_pop : Option Bridge → Option (Option (RxToken × TxToken) × Bridge)
  then_pop none = none
  then_pop (some b) = some (pop_front b)

  pub receive : ℕ → Bridge → Option (Option (RxToken × TxToken) × Bridge)
  unfolding refill then_pop pop_front
  receive fuel b = then_pop (refill fuel b)

  pub transmit : Bridge → Option TxToken × Bridge
  transmit b = (some outbound_tx, b)

  -- `TxToken::consume`: smoltcp fills a buffer of `len` bytes, and gets its result back whether or not
  -- the packet goes out.
  unfoldable pub consume {ℓ} : {R : Type ℓ} → ℕ → (Bytes → R × Bytes) → Bridge → R × Bridge
  consume len f b =
      let (r, buffer) = f (replicate len 0) in
      (r, record b { outbound = (m.try_send buffer b.outbound).1 })
