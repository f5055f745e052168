-- ===== src/Controller/Tests.antt =====
-- Concrete runs over toy primitives, and the theorems at concrete inputs.
use ha_bluetooth_mesh.Prelude.{
  ◌+◌, ◌%◌, ◌≡◌, refl, arith, ℕ, true, false, some, List, [], ◌∷◌, get_or, replicate,
}
use ha_bluetooth_mesh.Prelude.Bytes.{Bytes, be, to_bytes_big, from_big}
use ha_bluetooth_mesh.Prelude.Outcome.{ok}
use ha_bluetooth_mesh.Crypto.{k2, k4, s1, aes_cmac, aes_ecb, ccm_encrypt, ccm_decrypt}
use ha_bluetooth_mesh.Crypto.Toy.{toy, toy-IsSound}
use ha_bluetooth_mesh.Network as Network
use ha_bluetooth_mesh.Network.{network_context}
use ha_bluetooth_mesh.Transport as Transport
use ha_bluetooth_mesh.Access.{parse_access, encode_opcode, expect_params}
use ha_bluetooth_mesh.Access.Encoders.{op_light_ctl_set, generic_onoff_set}
use ha_bluetooth_mesh.Access.Decoders.{op_light_ctl_status, word_at, parse_generic_onoff_status}
use ha_bluetooth_mesh.Node.{MeshNode, mesh_node}
use ha_bluetooth_mesh.Node.Send.{send_access}
use ha_bluetooth_mesh.Node.Receive.{handle_network_pdu}
use ha_bluetooth_mesh.Node.Request.{Attempt, silence, request}
use ha_bluetooth_mesh.Controller.{MeshController, mesh_controller, next_tid, receive_all}
use ha_bluetooth_mesh.Controller.Commands.{settled, ctl_settled, command, set_ctl, set_onoff}
use ha_bluetooth_mesh.Controller.Laws.{
  IsMoved, IsAnnounced, receive_all-IsAuthentic, set_ctl-request,
}

abbrev netkey : Bytes
netkey = 1 ∷ 2 ∷ 3 ∷ []

abbrev appkey : Bytes
appkey = replicate 16 7

abbrev controller : MeshController
controller = mesh_controller toy netkey appkey 5 ((0x000C, appkey) ∷ []) 0x7FFF 100 511

abbrev lamp : MeshNode
lamp = mesh_node toy netkey appkey 5 0x000C 40

-- A Generic OnOff Status, off and on its way to on
abbrev on_air : Bytes
on_air =
    get_or (send_access toy 0x7FFF (0x82 ∷ 0x04 ∷ 0x00 ∷ 0x01 ∷ 0x0A ∷ []) false 7 lamp).0.sent 0 []

abbrev arrivals : List Attempt
arrivals = silence ∷ record { in_time = on_air ∷ []; late = [] } ∷ []

set_onoff-lamp : (set_onoff toy true 0x000C arrivals true 1 controller).1 ≡ ok (some true)
unfolding set_onoff mesh_controller request send_access handle_network_pdu Network.next_seq
    mesh_node network_context Transport.encrypt_access Transport.decrypt_access
    Transport.check_label_uuid Transport.access_nonce Transport.build_unsegmented_access
    Transport.parse_access_lower Transport.check_aid Network.encode Network.decode
    Network.decode_fields Network.network_nonce Network.pecb Network.xor Network.ctl_ttl
    Network.mic_len parse_access to_bytes_big be from_big k2 k4 s1 aes_cmac aes_ecb ccm_encrypt
    ccm_decrypt toy generic_onoff_set encode_opcode parse_generic_onoff_status expect_params settled
set_onoff-lamp = refl

abbrev messages : List (ℕ × Bytes)
messages = (0x00, on_air) ∷ (0x01, replicate 22 1) ∷ (0x02, on_air) ∷ []

receive_all-IsAuthentic_example :
    IsAnnounced toy netkey messages (receive_all toy true messages controller).beacon
receive_all-IsAuthentic_example =
    receive_all-IsAuthentic toy toy-IsSound true netkey appkey 5 ((0x000C, appkey) ∷ []) 0x7FFF 100
      511 messages

set_ctl-request_example :
    (payload : Bytes) × (params : Bytes) × (set_ctl toy true 0x000C arrivals 0x8000 30000 controller
      ≡ command toy true 0x000C arrivals ctl_settled
          (ok payload)
          op_light_ctl_status
          1
          (next_tid controller))
    × (parse_access payload ≡ ok (op_light_ctl_set, params))
    × (word_at 0 params ≡ 0x8000)
    × IsMoved 30000 (word_at 2 params)
    × (get_or params 6 0 ≡ 255)
    × ((set_ctl toy true 0x000C arrivals 0x8000 30000 controller).0.tid
        ≡ (controller.tid + 1) % 256)
unfolding mesh_controller
set_ctl-request_example =
    set_ctl-request toy true 0x000C arrivals 0x8000 30000 controller (omega arith) (omega arith)
