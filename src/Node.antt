-- ===== src/Node.antt =====
-- src/btmesh/node.py: the runtime of one node, its tables and the upkeep of them. The callbacks
-- `send_network_pdu` and `on_message` are taken not to call back into the node: `sent` is the calls
-- of the first, oldest first, and the second gets every message that `deliver` takes. A dict is a
-- list of its items; times are in milliseconds.
pub mod Send
pub mod Evict
pub mod Kept
pub mod Receive
pub mod Request
pub mod Calls
pub mod Invariant
pub mod EndToEnd
pub mod Echo
mod Tests
use ha_bluetooth_mesh.Prelude.{
  ℕ, zero, suc, ◌+◌, ◌-◌, ◌*◌, ◌/◌, ◌%◌, ◌^◌, bit_or, Bool, true, false, Option, none, some, List,
  [], ◌∷◌, ◌++◌, ◌&&◌, ltb, leb, ◌==◌, if◌then◌else◌, not, length, drop,
}
use ha_bluetooth_mesh.Prelude.Bytes.{Bytes}
use ha_bluetooth_mesh.Prelude.Dict.{get, set, delete}
use ha_bluetooth_mesh.Prelude.Outcome.{Result, Error, ok, err, node_error}
use ha_bluetooth_mesh.Crypto.{Primitives, k4}
use ha_bluetooth_mesh.Network.{NetworkContext, DecodedNetworkPdu, network_context}
use ha_bluetooth_mesh.Transport.{SegmentAck}
use ha_bluetooth_mesh.Transport.Assembler.{SegmentAssembler, pending}

abbrev pub default_ttl : ℕ
default_ttl = 7

-- 0.150 s, 0.050 s and 10 s
abbrev pub seg_ack_timeout_base : ℕ
seg_ack_timeout_base = 150

abbrev pub seg_ack_timeout_per_ttl : ℕ
seg_ack_timeout_per_ttl = 50

abbrev pub seg_incomplete_timeout : ℕ
seg_incomplete_timeout = 10000

abbrev pub max_tracked_segment_sources : ℕ
max_tracked_segment_sources = 16

abbrev pub received_maxlen : ℕ
received_maxlen = 128

pub record ReceivedMessage : Type 0 where
  pub src : ℕ
  pub opcode : ℕ
  pub params : Bytes

-- A pending request: `ticket` is the identity of its future, `result` what that was set to.
pub record Waiter : Type 0 where
  pub dst : ℕ
  pub opcode : ℕ
  pub ticket : ℕ
  pub result : Option ReceivedMessage

-- `call_later(delay, self._send_segment_ack, pdu, assembler)`. The assembler is the one that the
-- table holds for `pdu.src`: whatever drops that cancels the timer first.
pub record AckTimer : Type 0 where
  pub delay : ℕ
  pub pdu : DecodedNetworkPdu

-- A timer is `none` where there was no running loop to schedule it.
pub record MeshNode : Type 0 where
  pub ctx : NetworkContext
  pub appkey : Bytes
  pub aid : ℕ
  pub iv_index : ℕ
  pub src : ℕ
  pub assemblers : List (ℕ × SegmentAssembler)
  pub ack_timers : List (ℕ × Option AckTimer)
  pub incomplete_timers : List (ℕ × Option ℕ)
  pub device_keys : List (ℕ × Bytes)
  pub acks : List (ℕ × SegmentAck)
  pub last_rx_seq : List (ℕ × ℕ)
  pub waiters : List Waiter
  pub received : List ReceivedMessage
  pub sent : List Bytes

-- What a method leaves, and whether it raised.
abbrev pub Handled : Type 0
Handled = MeshNode × Result (Unit {0})

-- `__init__`
unfoldable pub mesh_node : Primitives → Bytes → Bytes → ℕ → ℕ → ℕ → MeshNode
mesh_node p netkey appkey iv_index src_addr seq = record {
  ctx = network_context p netkey iv_index seq;
  appkey = appkey;
  aid = k4 p appkey;
  iv_index = iv_index;
  src = src_addr;
  assemblers = [];
  ack_timers = [];
  incomplete_timers = [];
  device_keys = [];
  acks = [];
  last_rx_seq = [];
  waiters = [];
  received = [];
  sent = [];
}

unfoldable pub add_device : ℕ → Bytes → MeshNode → Handled
unfolding set
add_device unicast device_key n =
    if length device_key == 16
    then (record n { device_keys = set unicast device_key n.device_keys }, ok tt)
    else (n, err node_error)

-- The key registered for a peer, else the node's own.
unfoldable pub device_key_for : ℕ → MeshNode → Option Bytes
unfolding get
device_key_for peer n = elim (get peer n.device_keys) [
  | some key ↦ some key
  | none ↦ get n.src n.device_keys
]

-- `_rx_key`
unfoldable pub rx_key : Bool → ℕ → ℕ → MeshNode → Option Bytes
unfolding device_key_for
rx_key true aid src n = if aid == n.aid then some n.appkey else none
rx_key false aid src n = device_key_for src n

-- `_seq_auth`: `none` where the code returns a negative number.
unfoldable pub seq_auth : ℕ → ℕ → Option ℕ
seq_auth seq seq_zero =
    let candidate = bit_or (seq / 2 ^ 13 * 2 ^ 13) seq_zero in
    if ltb seq candidate
    then (if ltb candidate 0x2000 then none else some (candidate - 0x2000))
    else some candidate

-- `_cancel_sar_timers`
unfoldable pub cancel_sar_timers : ℕ → MeshNode → MeshNode
unfolding delete
cancel_sar_timers src n = record n {
  ack_timers = delete src n.ack_timers;
  incomplete_timers = delete src n.incomplete_timers;
}

-- The first source whose assembler has nothing in flight, else `other`.
unfoldable pub idle_source : ℕ → List (ℕ × SegmentAssembler) → ℕ
idle_source other [] = other
idle_source other ((src, a) ∷ table) = if pending a then idle_source other table else src

-- A source and its assembler leave the table, the timers before them.
unfoldable pub drop_source : ℕ → MeshNode → MeshNode
unfolding cancel_sar_timers delete
drop_source src n =
    let n' = cancel_sar_timers src n in record n' { assemblers = delete src n'.assemblers }

-- `_evict_one_source`; an empty table, which has no first source, is not full.
unfoldable pub evict_one_source : MeshNode → MeshNode
unfolding idle_source drop_source
evict_one_source n = elim n.assemblers [
  | [] ↦ n
  | first ∷ table ↦ drop_source (idle_source first.0 (first ∷ table)) n
]

-- `_assembler_for`, where the table has none for the source.
unfoldable pub new_assembler : ℕ → MeshNode → MeshNode
unfolding evict_one_source set
new_assembler src n =
    let n' =
      if ltb (length n.assemblers) max_tracked_segment_sources then n else evict_one_source n in
    record n' {
      assemblers = set src (record { key = none; parts = []; is_complete = false }) n'.assemblers;
    }

-- `_assembler_for`
unfoldable pub assembler_for : ℕ → MeshNode → MeshNode × SegmentAssembler
unfolding get new_assembler
assembler_for src n = elim (get src n.assemblers) [
  | some a ↦ (n, a)
  | none ↦ (new_assembler src n, record { key = none; parts = []; is_complete = false })
]

-- `_abandon_transfer`, the callback of the incomplete timer
unfoldable pub abandon_transfer : ℕ → MeshNode → MeshNode
unfolding drop_source
abandon_transfer src n = drop_source src n

-- `close`: each source of the three tables loses its timers, which are then all gone.
unfoldable pub close : MeshNode → MeshNode
close n = record n { assemblers = []; ack_timers = []; incomplete_timers = [] }

-- `deque(maxlen=128).append`
unfoldable pub append_received : ReceivedMessage → List ReceivedMessage → List ReceivedMessage
append_received msg received =
    (if ltb (length received) received_maxlen then received else drop 1 received) ++ (msg ∷ [])

unfoldable pub answers : ReceivedMessage → Waiter → Bool
answers msg w =
    (msg.src == w.dst)
    && (msg.opcode == w.opcode)
    && (elim w.result [ none ↦ true | some got ↦ false ])

-- The loop of `_deliver`: the oldest waiter that the message answers takes it.
unfoldable pub resolve : ReceivedMessage → List Waiter → List Waiter
unfolding answers
resolve msg [] = []
resolve msg (w ∷ ws) =
    if answers msg w then record w { result = some msg } ∷ ws else w ∷ resolve msg ws

-- `_deliver`
unfoldable pub deliver : ReceivedMessage → MeshNode → MeshNode
unfolding append_received resolve
deliver msg n = record n {
  received = append_received msg n.received;
  waiters = resolve msg n.waiters;
}
