-- ===== src/Controller.antt =====
-- src/btmesh/controller.py: the commands of a client over a node. `queue` is what was put into the
-- pump, oldest first; that the pump and the bearer start and stop is left out, and so are their
-- failures, the logging and the timeout's length. What arrives during a request is a parameter, as
-- for Node.Request. A level from 0 to 1 is the lightness that its rounding gives.
pub mod Commands
pub mod Laws
mod Tests
use ha_bluetooth_mesh.Prelude.{
  ℕ, ◌+◌, ◌%◌, ◌^◌, Bool, true, false, Option, none, some, List, [], ◌∷◌, ◌++◌, map, ◌==◌,
  if◌then◌else◌,
}
use ha_bluetooth_mesh.Prelude.Bytes.{Bytes}
use ha_bluetooth_mesh.Prelude.Outcome.{
  Result, Error, ok, err, ◌>>=◌, timeout_error, node_error, access_error, beacon_error,
  proxy_config_error,
}
use ha_bluetooth_mesh.Crypto.{Primitives}
use ha_bluetooth_mesh.Beacon.{SecureNetworkBeacon, parse_secure_network_beacon}
use ha_bluetooth_mesh.ProxyConfig.{
  FilterStatus, filter_accept_list, set_filter_type, add_addresses, parse_filter_status,
}
use ha_bluetooth_mesh.Node.{MeshNode, ReceivedMessage, mesh_node, add_device}
use ha_bluetooth_mesh.Node as Node
use ha_bluetooth_mesh.Node.Send.{build_proxy_config_pdu, parse_proxy_config_pdu}
use ha_bluetooth_mesh.Node.Receive.{handle_network_pdu}

abbrev pub msg_type_network_pdu : ℕ
msg_type_network_pdu = 0x00

abbrev pub msg_type_mesh_beacon : ℕ
msg_type_mesh_beacon = 0x01

abbrev pub msg_type_proxy_config : ℕ
msg_type_proxy_config = 0x02

pub record MeshController : Type 0 where
  pub node : MeshNode
  pub net_key : Bytes
  pub src : ℕ
  pub beacon : Option SecureNetworkBeacon
  pub filter_status : Option FilterStatus
  pub tid : ℕ
  pub queue : List (ℕ × Bytes)

-- The loop of `__init__` over the nodes of the network, each with its address and device key: a
-- key that NodeError refuses is passed over.
unfoldable pub register : List (ℕ × Bytes) → MeshNode → MeshNode
unfolding add_device
register [] n = n
register ((unicast, device_key) ∷ nodes) n = register nodes (add_device unicast device_key n).0

-- `__init__`, with the IV Index and the application key that it settles on
unfoldable pub mesh_controller :
    Primitives → Bytes → Bytes → ℕ → List (ℕ × Bytes) → ℕ → ℕ → ℕ → MeshController
unfolding register mesh_node
mesh_controller p net_key app_key iv_index nodes src_addr seq tid = record {
  node = register nodes (mesh_node p net_key app_key iv_index src_addr seq);
  net_key = net_key;
  src = src_addr;
  beacon = none;
  filter_status = none;
  tid = tid % 2 ^ 8;
  queue = [];
}

-- What the node sends is put into the pump.
unfoldable pub put_sent : MeshNode → MeshController → MeshController
put_sent n c = record c {
  node = record n { sent = [] };
  queue = c.queue ++ map (λ (pdu : Bytes). (msg_type_network_pdu, pdu)) n.sent;
}

-- `_next_tid`
unfoldable pub next_tid : MeshController → MeshController
next_tid c = record c { tid = (c.tid + 1) % 2 ^ 8 }

-- What a handler leaves, and whether it raised.
abbrev pub Handled : Type 0
Handled = MeshController × Result (Unit {0})

-- `_handle_beacon`, on what the payload parses to
unfoldable pub take_beacon : Result SecureNetworkBeacon → MeshController → Handled
take_beacon (ok beacon) c = (record c { beacon = some beacon }, ok tt)
take_beacon (err beacon_error) c = (c, ok tt)
take_beacon (err e) c = (c, err e)

-- `_handle_proxy_config`, on what the message parses to
unfoldable pub take_status : Result FilterStatus → MeshController → Handled
take_status (ok status) c = (record c { filter_status = some status }, ok tt)
take_status (err proxy_config_error) c = (c, ok tt)
take_status (err e) c = (c, err e)

unfoldable pub take_config : Result (Option Bytes) → MeshController → Handled
unfolding take_status
take_config (err e) c = (c, err e)
take_config (ok none) c = (c, ok tt)
take_config (ok (some message)) c = take_status (parse_filter_status message) c

-- `_send_proxy_config`, on the PDU that was built
unfoldable pub put_config : MeshNode × Result Bytes → MeshController → Handled
unfolding put_sent
put_config (n, err e) c = (put_sent n c, err e)
put_config (n, ok pdu) c =
    let c' = put_sent n c in
    (record c' { queue = c'.queue ++ ((msg_type_proxy_config, pdu) ∷ []) }, ok tt)

-- `close` of the node, the last step of `stop`
unfoldable pub stop : MeshController → MeshController
unfolding Node.close
stop c = record c { node = Node.close c.node }

module _ (p : Primitives) (loop : Bool) where
  unfoldable pub handle_beacon : Bytes → MeshController → Handled
  unfolding take_beacon
  handle_beacon payload c = take_beacon (parse_secure_network_beacon p c.net_key payload) c

  unfoldable pub handle_proxy_config : Bytes → MeshController → Handled
  unfolding take_config
  handle_proxy_config payload c = take_config (parse_proxy_config_pdu p payload c.node) c

  unfoldable pub handle_pdu : Bytes → MeshController → Handled
  unfolding handle_network_pdu put_sent
  handle_pdu payload c = let (n, r) = handle_network_pdu p loop payload c.node in (put_sent n c, r)

  -- `_on_message`
  unfoldable pub on_message : ℕ → Bytes → MeshController → Handled
  unfolding handle_pdu handle_proxy_config handle_beacon
  on_message msg_type payload c =
      if msg_type == msg_type_network_pdu
      then handle_pdu payload c
      else if msg_type == msg_type_proxy_config
      then handle_proxy_config payload c
      else if msg_type == msg_type_mesh_beacon
      then handle_beacon payload c
      else (c, ok tt)

  -- The calls of `_on_message` that the bearer makes, one after the other; an exception is its own.
  unfoldable pub receive_all : List (ℕ × Bytes) → MeshController → MeshController
  unfolding on_message
  receive_all [] c = c
  receive_all ((msg_type, payload) ∷ messages) c =
      receive_all messages (on_message msg_type payload c).0

  unfoldable pub send_proxy_config : Result Bytes → MeshController → Handled
  unfolding put_config
  send_proxy_config (err e) c = (c, err e)
  send_proxy_config (ok message) c = put_config (build_proxy_config_pdu p message c.node) c

  -- The second message goes out if the first did not raise.
  unfoldable pub add_own_address : Handled → MeshController
  unfolding send_proxy_config
  add_own_address (c, err e) = c
  add_own_address (c, ok u) = (send_proxy_config (add_addresses (c.src ∷ [])) c).0

  -- `_configure_filter`: any exception ends it.
  unfoldable pub configure_filter : MeshController → MeshController
  unfolding add_own_address
  configure_filter c = add_own_address (send_proxy_config (set_filter_type filter_accept_list) c)
