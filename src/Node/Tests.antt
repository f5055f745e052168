-- ===== src/Node/Tests.antt =====
-- Concrete runs over toy primitives, and the theorems at concrete inputs.
use ha_bluetooth_mesh.Prelude.{◌≡◌, refl, ap, arith, true, false, List, [], ◌∷◌, get_or, replicate}
use ha_bluetooth_mesh.Prelude.Bytes.{Bytes, be, to_bytes_big, from_big}
use ha_bluetooth_mesh.Prelude.Dict.{get, set}
use ha_bluetooth_mesh.Prelude.Outcome.{Result, ok}
use ha_bluetooth_mesh.Crypto.{k2, k4, s1, aes_cmac, aes_ecb, ccm_encrypt, ccm_decrypt}
use ha_bluetooth_mesh.Crypto.Toy.{toy, toy-IsSound}
use ha_bluetooth_mesh.Network as Network
use ha_bluetooth_mesh.Transport as Transport
use ha_bluetooth_mesh.Network.{network_context}
use ha_bluetooth_mesh.Network.Context.{network_context-IsContext}
use ha_bluetooth_mesh.Access.{parse_access}
use ha_bluetooth_mesh.Node.{MeshNode, ReceivedMessage, mesh_node, deliver, rx_key}
use ha_bluetooth_mesh.Node.Send.{tx_key, send_access}
use ha_bluetooth_mesh.Node.Receive.{handle_network_pdu}
use ha_bluetooth_mesh.Node.Request.{Attempt, request}
use ha_bluetooth_mesh.Node.Request.Answer.{request_answer}
use ha_bluetooth_mesh.Node.Calls.{Call, adds, asks, receives, acks, abandons, closes, run}
use ha_bluetooth_mesh.Node.Invariant.{IsTracked, run-IsTracked}
use ha_bluetooth_mesh.Node.EndToEnd.{IsLink, spent}
use ha_bluetooth_mesh.Node.EndToEnd.Unsegmented.{handle_network_pdu-send_access}
use ha_bluetooth_mesh.Node.Echo.{handle_network_pdu_twice}

abbrev netkey : Bytes
netkey = 1 ∷ 2 ∷ 3 ∷ []

abbrev appkey : Bytes
appkey = replicate 16 7

abbrev lamp : MeshNode
lamp = mesh_node toy netkey appkey 5 0x000C 40

abbrev client : MeshNode
client = mesh_node toy netkey appkey 5 0x7FFF 100

-- A Generic OnOff Status: on.
abbrev status : Bytes
status = 0x82 ∷ 0x04 ∷ 0x01 ∷ []

lamp-IsLink : IsLink lamp client
unfolding mesh_node network_context get
lamp-IsLink = record {
  network = refl;
  ready = network_context-IsContext toy toy-IsSound netkey 5 40 (omega arith);
  iv_index = refl;
  iv_index_fits = omega arith;
  src_fits = omega arith;
  others = omega arith;
  fresh = tt;
}

status_read : parse_access status ≡ ok (0x8204, 0x01 ∷ [])
unfolding parse_access from_big
status_read = refl

abbrev on_air : Bytes
on_air = get_or (send_access toy 0x7FFF status false 7 lamp).0.sent 0 []

handle_network_pdu-send_access_example :
    (pdu : Bytes) × (send_access toy 0x7FFF status false 7 lamp
      ≡ (record (spent 1 lamp) { sent = pdu ∷ [] }, ok tt))
    × (handle_network_pdu toy true pdu client ≡ (
      deliver
          (record { src = 0x000C; opcode = 0x8204; params = 0x01 ∷ [] })
          (record client { last_rx_seq = set 0x000C 40 [] }),
      ok tt,
    ))
unfolding mesh_node network_context k4 rx_key tx_key aes_cmac toy
handle_network_pdu-send_access_example =
    handle_network_pdu-send_access toy toy-IsSound true lamp client lamp-IsLink appkey true
      (k4 toy appkey) 0x7FFF 7 0x8204 status (0x01 ∷ []) false refl refl (omega arith) refl
      (omega arith) (omega arith) (omega arith) (omega arith) (omega arith) status_read

handle_network_pdu_twice_example :
    (handle_network_pdu toy true on_air (handle_network_pdu toy true on_air client).0).0
    ≡ (handle_network_pdu toy true on_air client).0
handle_network_pdu_twice_example = handle_network_pdu_twice toy true on_air client

abbrev calls : List Call
calls =
    adds 0x000C appkey
    ∷ asks 0x000C 0x8204 (0x82 ∷ 0x01 ∷ []) false 7 1
        (record { in_time = []; late = on_air ∷ [] } ∷ [])
    ∷ receives on_air
    ∷ acks 0x000C
    ∷ abandons 0x000C
    ∷ closes
    ∷ []

run-IsTracked_example : IsTracked (run toy true client calls)
run-IsTracked_example = run-IsTracked toy true netkey appkey 5 0x7FFF 100 calls

abbrev answer : ReceivedMessage
answer = record { src = 0x000C; opcode = 0x8204; params = 0x01 ∷ [] }

abbrev arrivals : List Attempt
arrivals = record { in_time = []; late = [] } ∷ record { in_time = on_air ∷ []; late = [] } ∷ []

-- The peer answers the second transmission.
abbrev asked : MeshNode × Result ReceivedMessage
asked = request toy true 0x000C 0x8204 (0x82 ∷ 0x01 ∷ []) false 7 1 arrivals client

asked_answer : asked.1 ≡ ok answer
unfolding request send_access handle_network_pdu Network.next_seq mesh_node network_context
    Transport.encrypt_access Transport.decrypt_access Transport.check_label_uuid
    Transport.access_nonce Transport.build_unsegmented_access Transport.parse_access_lower
    Transport.check_aid Network.encode Network.decode Network.decode_fields Network.network_nonce
    Network.pecb Network.xor Network.ctl_ttl Network.mic_len parse_access to_bytes_big be from_big
    k2 k4 s1 aes_cmac aes_ecb ccm_encrypt ccm_decrypt toy
asked_answer = refl

request_answer_example : (answer.src ≡ 0x000C) × (answer.opcode ≡ 0x8204)
request_answer_example =
    request_answer toy true 0x000C 0x8204 (0x82 ∷ 0x01 ∷ []) false 7 1 arrivals client asked.0
      answer (ap (λ (r : Result ReceivedMessage). (asked.0, r)) asked_answer)
