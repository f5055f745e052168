-- ===== src/Bearer/Tests.antt =====
-- Runs of src/btmesh/bearer.py.
use ha_bluetooth_mesh.Prelude.{
  ℕ, ◌≤◌, ◌≡◌, refl, arith, ◌⊎◌, true, false, none, some, List, [], ◌∷◌, ltb, length, All, bytes_eq,
}
use ha_bluetooth_mesh.Prelude.Bytes.{Bytes}
use ha_bluetooth_mesh.Prelude.Outcome.{ok, err, bearer_error}
use ha_bluetooth_mesh.ProxyPdu.{reset, segment, chunks_from, frames_from, header, sar_at}
use ha_bluetooth_mesh.Bearer.{
  GattBearer, max_frame, confirmed, start, gatt_bearer, send, notify_all, parse_proxy_service_data,
}
use ha_bluetooth_mesh.Bearer.Delivery.{send-notify_all}
use ha_bluetooth_mesh.Bearer.Scan.{
  Discovery, ProxyCandidate, Poll, find_proxy_node, proxy_candidates_from_discoveries,
}
use ha_bluetooth_mesh.Bearer.Scan.First.{
  seen_until, first_match, is_over, find_proxy_node-first_match,
}

abbrev lamp : GattBearer
lamp = record { reassembler = reset; listening = true; subscribing = false; failed = false }

started_lamp : (start confirmed gatt_bearer).0 ≡ lamp
unfolding start gatt_bearer
started_lamp = refl

abbrev message : Bytes
message = 1 ∷ 2 ∷ 3 ∷ 4 ∷ 5 ∷ []

-- Frames of 2 payload bytes; the third write raises.
broken_send :
    send (some 6) (λ i. ltb i 2) 3 message
    ≡ ((0x43 ∷ 1 ∷ 2 ∷ []) ∷ (0x83 ∷ 3 ∷ 4 ∷ []) ∷ [], err bearer_error)
unfolding send segment chunks_from frames_from header sar_at
broken_send = refl

send-notify_all_example :
    let (frames, result) = send (some 6) (λ i. true) 3 message in
    All (λ (frame : Bytes). length frame ≤ max_frame (some 6)) frames
    × (((result ≡ ok tt) × ((notify_all frames lamp).1 ≡ (3, message) ∷ []))
        ⊎ ((result ≡ err bearer_error) × ((notify_all frames lamp).1 ≡ [])))
send-notify_all_example =
    send-notify_all (some 6) (λ i. true) 3 message lamp (omega arith) refl refl

abbrev network : Bytes
network = 1 ∷ 2 ∷ 3 ∷ 4 ∷ 5 ∷ 6 ∷ 7 ∷ 8 ∷ []

abbrev advert : ℕ → Bytes → Discovery
advert address octets = record {
  address = address ∷ [];
  prov_service = none;
  proxy_service = some octets;
}

-- A foreign network, then a truncated advert, then ours, in the second poll.
abbrev polls : List Poll
polls =
    record { discoveries = advert 1 (0 ∷ 8 ∷ 7 ∷ 6 ∷ 5 ∷ 4 ∷ 3 ∷ 2 ∷ 1 ∷ []) ∷ []; time = 100 }
    ∷ record { discoveries = advert 2 (0 ∷ 1 ∷ 2 ∷ []) ∷ advert 3 (0 ∷ network) ∷ []; time = 1100 }
    ∷ record { discoveries = []; time = 16000 }
    ∷ []

first_match-polls :
    first_match network (seen_until 15000 polls)
    ≡ some (record { device = 3 ∷ []; identification_type = 0; parameter = network })
unfolding first_match seen_until bytes_eq parse_proxy_service_data proxy_candidates_from_discoveries
first_match-polls = refl

find_proxy_node-first_match_example :
    (candidates : List ProxyCandidate) × (find_proxy_node network 15000 polls
      ≡ some (first_match network (seen_until 15000 polls), candidates))
unfolding is_over
find_proxy_node-first_match_example = find_proxy_node-first_match network 15000 polls refl
