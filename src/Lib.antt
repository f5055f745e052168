-- ===== src/Lib.antt =====
-- The library btmesh (src/btmesh), which speaks Bluetooth Mesh over a GATT proxy, and the part of
-- the Home Assistant integration over it (custom_components/bluetooth_mesh) that holds the link and
-- shows the lights.
--
-- How the parts work together. A message of the access layer (access.py, module Access) is sealed
-- with an application or device key and cut into segments (transport.py, module Transport); each
-- lower transport PDU is sealed with the network credentials under its own SEQ (network.py, module
-- Network; the credentials come from crypto.py, module Crypto) and leaves in frames that fit the
-- link (proxy_pdu.py, module ProxyPdu), which a bearer writes to its client (bearer.py, module
-- Bearer), on each link of a fan-out (fanout.py, module Fanout). What
-- arrives goes the other way: Reassembler, `decode`, `parse_access_lower`, SegmentAssembler,
-- `decrypt_access`, and a parser of access.py. The node (node.py, module Node) composes both ways:
-- Node.Send, Node.Receive, and Node.Request for a message that waits for its response. Beside them
-- stand the proxy's filter (proxy_config.py, module ProxyConfig), the beacon that announces the IV
-- Index (beacon.py, module Beacon), and provisioning: its PDUs (prov_pdu.py, module ProvPdu) and
-- the session that gives a device its keys (provisioner.py, module Provisioner).
--
-- The node's PDUs wait for the bearer in a queue (pump.py, module Pump). The controller
-- (controller.py, module Controller) makes commands of requests, and Controller.Commands what each
-- gives its caller. Apart from these stands the network that another app provisioned
-- (network_model.py, module NetworkModel): NetworkModel.Import reads its export, NetworkModel.Json
-- the values in it.
--
-- The integration stands on these. Its coordinator (coordinator.py) is one object; Coordinator has a
-- module for the fields that belong together, with the methods that use them: Coordinator.Cursor the
-- SEQ cursor and its files, Coordinator.Health availability, the back-off and the repairs,
-- Coordinator.Links the connections that are held, with the calls of the first two where a link comes
-- up or fails, and Coordinator.Source the address and the key. Which proxy to connect to is found in
-- the adverts (mesh_transport.py, module MeshTransport). The lights (light.py) are Light.Outputs, the
-- elements of a node that are lights, Light.TurnOn, the calls of one light, and Light.Group.
--
-- How code becomes definitions. A function keeps its name, without the leading underscore; a
-- constant is in lower case; a class is a record and its methods take and return it. `bytes` are
-- lists of natural numbers, and a theorem says AllBytes where it needs each to be below 256. An
-- exception is a value of Error (Prelude.Outcome), one constructor for each class, its text left
-- out; a method that can raise after a change of state returns the state beside the Result. A
-- Python int that the code checks against a range from 0 up is a natural number, so that the lower
-- half of the check has no case here; Delta UV, which can be negative, is Signed, and an int of the
-- export is ℤ (Prelude.Integers). `&`, `|` and `^` on fixed fields are `%`, `/`, bit_or and
-- bit_xor.
--
-- What is a parameter. AES-CMAC, AES-ECB and AES-CCM of the cryptography package are the fields of
-- the record Crypto.Primitives. Theorems that need more than their types take Crypto.IsSound: the
-- sizes of what they return, and that opening what was sealed under the same key, nonce and data
-- gives it back. Crypto.Toy meets it with executable functions, on which the theorems are tried. In
-- Fanout, which links fail, start or take a write is a parameter of each call; in Provisioner, the
-- ECDH exchange with the session's own private key is one. In NetworkModel.Import, Python's str,
-- int(text, 16) and bytes.fromhex are the fields of NetworkModel.Json.Builtins.
--
-- The node's runtime. MeshNode is a record of what the class keeps; its dicts are lists of items
-- (Prelude.Dict). asyncio enters as data: `request` takes, for each transmission, what arrives
-- while it waits and after the wait timed out, and Node.Calls lists the calls of methods and the
-- timers that fire, in any order. The callbacks do not call back into the node. Pump is a list of
-- events in the same way. In the integration, what the radio, the scanners and the Store of Home
-- Assistant do is a parameter of each call, and Coordinator.Cursor.Run, Coordinator.Health.Attempts
-- and Coordinator.Links.Calls list the calls in any order. Times are milliseconds.
--
-- Fuel. `ProxyPdu.chunks_from` runs on the length of the payload and `Access.Composition`'s loop on
-- the length of the parameters: each round takes a byte at least, so that the fuel is enough. All
-- else is structural recursion.
--
-- Not modelled: the functions that only call bleak, habluetooth or Home Assistant (the connections
-- of bearer.py and mesh_transport.py, the timers, listeners and registrations of coordinator.py and
-- light.py, and __init__.py, sensor.py, config_flow.py and diagnostics.py); the copy of btmesh under
-- custom_components, which a script keeps identical; the float arithmetic between brightness and
-- level; the tools of phase0 and the scripts; and in the files that are modelled, the functions that
-- print, the reading of the export's file, and the checks of the provisioning session's constructor.
pub mod Prelude
pub mod ProxyPdu
pub mod Crypto
pub mod Network
pub mod Transport
pub mod ProxyConfig
pub mod Beacon
pub mod Access
pub mod ProvPdu
pub mod Fanout
pub mod Node
pub mod NetworkModel
pub mod Controller
pub mod Bearer
pub mod MeshTransport
pub mod Coordinator
pub mod Light
pub mod Pump
pub mod Provisioner
