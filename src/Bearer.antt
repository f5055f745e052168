-- ===== src/Bearer.antt =====
-- src/btmesh/bearer.py: Proxy PDUs over a connected GATT client, and what is read from adverts. What
-- the client does is a parameter: its `mtu_size` where that is a number, how `start_notify` ends, and
-- which writes do not raise. A callback that raises is only logged, so that what `on_message` gets is
-- returned. connect_local and EsphomeTransport only call bleak and habluetooth, and are left out.
pub mod Scan
pub mod Delivery
mod Tests
use ha_bluetooth_mesh.Prelude.{
  ℕ, ◌+◌, ◌-◌, Bool, true, false, Option, none, some, List, [], ◌∷◌, ◌++◌, ◌&&◌, ltb, leb, ◌==◌,
  if◌then◌else◌, length, take, drop, slice,
}
use ha_bluetooth_mesh.Prelude.Bytes.{Bytes, from_big}
use ha_bluetooth_mesh.Prelude.Outcome.{Result, ok, err, bearer_error}
use ha_bluetooth_mesh.ProxyPdu.{Reassembler, reset, feed, segment}

abbrev pub att_header_len : ℕ
att_header_len = 3

abbrev pub default_max_frame : ℕ
default_max_frame = 20

abbrev pub identification_network_id : ℕ
identification_network_id = 0x00

abbrev pub identification_node_identity : ℕ
identification_node_identity = 0x01

pub record GattBearer : Type 0 where
  pub reassembler : Reassembler
  -- `_on_message` is set
  pub listening : Bool
  -- `_subscribe_task` is set
  pub subscribing : Bool
  -- `failure` is set
  pub failed : Bool

unfoldable pub gatt_bearer : GattBearer
gatt_bearer = record { reassembler = reset; listening = false; subscribing = false; failed = false }

-- `mtu_size`, which is `none` where it cannot be read as an int
unfoldable pub max_frame : Option ℕ → ℕ
max_frame none = default_max_frame
max_frame (some mtu) =
    if ltb mtu (att_header_len + 2) then default_max_frame else mtu - att_header_len

-- How `start_notify` ends within START_NOTIFY_TIMEOUT: it may not.
pub data Subscribe : Type 0 where
  confirmed pending refused : Subscribe

unfoldable pub start : Subscribe → GattBearer → GattBearer × Result (Unit {0})
start confirmed b = (record b { listening = true }, ok tt)
start pending b = (record b { listening = true; subscribing = true }, ok tt)
start refused b = (record b { listening = true }, err bearer_error)

-- How a subscribe that outlived its grace period ended
pub data LateEnd : Type 0 where
  cancelled subscribed raised : LateEnd

unfoldable pub on_late_subscribe : LateEnd → GattBearer → GattBearer
on_late_subscribe cancelled b = b
on_late_subscribe subscribed b = b
on_late_subscribe raised b = record b { failed = true }

-- `stop`: a task that is still there is cancelled.
unfoldable pub stop : GattBearer → GattBearer
stop b = record b { subscribing = false }

-- The loop of `send`: the frames that were written, and whether a write raised. `accepts` says of a
-- frame's index whether its write does not.
unfoldable pub write_frames : (ℕ → Bool) → ℕ → List Bytes → List Bytes × Result (Unit {0})
write_frames accepts i [] = ([], ok tt)
write_frames accepts i (frame ∷ frames) =
    let rest = write_frames accepts (i + 1) frames in
    if accepts i then (frame ∷ rest.0, rest.1) else ([], err bearer_error)

unfoldable pub send_segmented : (ℕ → Bool) → Result (List Bytes) → List Bytes × Result (Unit {0})
unfolding write_frames
send_segmented accepts (err e) = ([], err bearer_error)
send_segmented accepts (ok frames) = write_frames accepts 0 frames

unfoldable pub send : Option ℕ → (ℕ → Bool) → ℕ → Bytes → List Bytes × Result (Unit {0})
unfolding max_frame send_segmented
send mtu accepts msg_type payload =
    send_segmented accepts (segment msg_type payload (max_frame mtu))

-- `_handle_notify`, from what `feed` gives on: the message that `on_message` gets
unfoldable pub complete :
    Reassembler × Result (Option (ℕ × Bytes)) → GattBearer → GattBearer × List (ℕ × Bytes)
complete (r, err e) b = (record b { reassembler = r }, [])
complete (r, ok none) b = (record b { reassembler = r }, [])
complete (r, ok (some message)) b =
    (record b { reassembler = r }, if b.listening then message ∷ [] else [])

unfoldable pub handle_notify : Bytes → GattBearer → GattBearer × List (ℕ × Bytes)
unfolding complete
handle_notify frame b = complete (feed b.reassembler frame) b

-- The notifications of a connection, one after the other, and all that `on_message` gets
unfoldable pub notify_all : List Bytes → GattBearer → GattBearer × List (ℕ × Bytes)
unfolding handle_notify
notify_all [] b = (b, [])
notify_all (frame ∷ frames) b =
    let (b', messages) = handle_notify frame b in
    let (b'', later) = notify_all frames b' in (b'', messages ++ later)

unfoldable pub parse_unprovisioned_service_data : Bytes → Option (Bytes × ℕ)
parse_unprovisioned_service_data octets =
    if ltb (length octets) 18 then none else some (take 16 octets, from_big (slice 16 18 octets))

unfoldable pub parse_proxy_service_data : Bytes → Option (ℕ × Bytes)
parse_proxy_service_data [] = none
parse_proxy_service_data (id_type ∷ parameter) =
    if (id_type == identification_network_id) && leb 9 (length parameter + 1)
    then some (id_type, take 8 parameter)
    else if (id_type == identification_node_identity) && leb 17 (length parameter + 1)
    then some (id_type, take 16 parameter)
    else none
