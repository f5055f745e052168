-- ===== src/Controller/Laws.antt =====
-- What src/btmesh/controller.py records of what arrives, and what its Light CTL command sends.
use ha_bluetooth_mesh.Prelude.{
  ℕ, ◌+◌, ◌%◌, ◌^◌, ◌≤◌, ◌<◌, ◌≡◌, refl, sym, ap, subst, ◌⊎◌, arith, Bool, true, false, Option,
  none, some, List, [], ◌∷◌, ◌==◌, if◌then◌else◌, get_or, inl, inr, All, length, take, drop, slice,
}
use ha_bluetooth_mesh.Prelude.Bytes.{Bytes}
use ha_bluetooth_mesh.Prelude.Outcome.{Result, ok, err, beacon_error, proxy_config_error}
use ha_bluetooth_mesh.Crypto.{Primitives, IsSound, aes_cmac}
use ha_bluetooth_mesh.Beacon.{SecureNetworkBeacon, parse_secure_network_beacon, beacon_key}
use ha_bluetooth_mesh.Beacon.Laws.{parse_accepts}
use ha_bluetooth_mesh.ProxyConfig.{FilterStatus, parse_filter_status}
use ha_bluetooth_mesh.Access.{parse_access}
use ha_bluetooth_mesh.Access.Encoders.{pos, op_light_ctl_set, ctl_temp_min, ctl_temp_max}
use ha_bluetooth_mesh.Access.Decoders.{op_light_ctl_status, word_at}
use ha_bluetooth_mesh.Access.Requests.{IsCtl, light_ctl_set_lem}
use ha_bluetooth_mesh.Access.Replies.{IsInt16}
use ha_bluetooth_mesh.Node.Send.{parse_proxy_config_pdu}
use ha_bluetooth_mesh.Node.Request.{Attempt}
use ha_bluetooth_mesh.Controller.{
  MeshController, Handled, mesh_controller, next_tid, put_sent, take_beacon, take_status,
  take_config, handle_beacon, handle_proxy_config, handle_pdu, on_message, receive_all,
}
use ha_bluetooth_mesh.Controller.Commands.{clamp, ctl_settled, ask, command, set_ctl}

-- The payload was received in a message of the type of a beacon.
abbrev pub Received : List (ℕ × Bytes) → Bytes → Type 0
Received [] payload = ⊥
Received (message ∷ messages) payload = (message ≡ (1, payload)) ⊎ Received messages payload

-- What is recorded, if anything, was received in one of the messages, and signed under the key.
abbrev pub IsAnnounced : Primitives → Bytes → List (ℕ × Bytes) → Option SecureNetworkBeacon → Type 0
IsAnnounced p key messages none = Unit {0}
IsAnnounced p key messages (some beacon) =
    (payload : Bytes) × Received messages payload
    × (parse_secure_network_beacon p key payload ≡ ok beacon)
    × (length payload ≡ 22)
    × (drop 14 payload ≡ take 8 (aes_cmac p (beacon_key p key) (slice 1 14 payload)))

module _ (p : Primitives) (sound : IsSound p) (key : Bytes) (all : List (ℕ × Bytes)) where
  abbrev IsBeacon : Option SecureNetworkBeacon → Type 0
  IsBeacon b = IsAnnounced p key all b

  record IsAuthentic (c : MeshController) : Type 0 where
    pub same_key : c.net_key ≡ key
    pub recorded : IsBeacon c.beacon

  take_beacon-IsAuthentic :
      (payload : Bytes) (r : Result SecureNetworkBeacon) (c : MeshController)
      → parse_secure_network_beacon p key payload ≡ r
      → Received all payload
      → IsAuthentic c
      → IsAuthentic (take_beacon r c).0
  unfolding take_beacon
  take_beacon-IsAuthentic payload (ok beacon) c e came h =
      let (size, type, id, signed) = parse_accepts p sound key payload beacon e in
      record { same_key = h.same_key; recorded = (payload, came, e, size, signed) }
  take_beacon-IsAuthentic payload (err beacon_error) c e came h = h
  take_beacon-IsAuthentic payload (err e') c e came h = h

  take_status-IsAuthentic :
      (r : Result FilterStatus) (c : MeshController)
      → IsAuthentic c
      → IsAuthentic (take_status r c).0
  unfolding take_status
  take_status-IsAuthentic (ok status) c h = record { same_key = h.same_key; recorded = h.recorded }
  take_status-IsAuthentic (err proxy_config_error) c h = h
  take_status-IsAuthentic (err e) c h = h

  take_config-IsAuthentic :
      (r : Result (Option Bytes)) (c : MeshController)
      → IsAuthentic c
      → IsAuthentic (take_config r c).0
  unfolding take_config
  take_config-IsAuthentic (err e) c h = h
  take_config-IsAuthentic (ok none) c h = h
  take_config-IsAuthentic (ok (some message)) c h =
      take_status-IsAuthentic (parse_filter_status message) c h

  if-IsAuthentic :
      (b : Bool) (x y : Handled)
      → (b ≡ true → IsAuthentic x.0)
      → IsAuthentic y.0
      → IsAuthentic (if b then x else y).0
  if-IsAuthentic true x y h k = h refl
  if-IsAuthentic false x y h k = k

  on_message-IsAuthentic :
      (loop : Bool) (msg_type : ℕ) (payload : Bytes) (c : MeshController)
      → ((msg_type == 1) ≡ true → Received all payload)
      → IsAuthentic c
      → IsAuthentic (on_message p loop msg_type payload c).0
  unfolding on_message handle_pdu handle_proxy_config handle_beacon put_sent
  on_message-IsAuthentic loop msg_type payload c came h =
      if-IsAuthentic (msg_type == 0) (handle_pdu p loop payload c) _
        (λ is_pdu. record { same_key = h.same_key; recorded = h.recorded })
        (if-IsAuthentic (msg_type == 2) (handle_proxy_config p loop payload c) _
          (λ is_config. take_config-IsAuthentic (parse_proxy_config_pdu p payload c.node) c h)
          (if-IsAuthentic (msg_type == 1) (handle_beacon p loop payload c) (c, ok tt)
            (λ is_beacon.
              take_beacon-IsAuthentic payload (parse_secure_network_beacon p c.net_key payload) c
                (ap (λ (k : Bytes). parse_secure_network_beacon p k payload) (sym h.same_key))
                (came is_beacon) h)
            h))

  receive_all_keeps :
      (loop : Bool) (messages : List (ℕ × Bytes)) (c : MeshController)
      → All (λ m. (m.0 == 1) ≡ true → Received all m.1) messages
      → IsAuthentic c
      → IsAuthentic (receive_all p loop messages c)
  unfolding receive_all
  receive_all_keeps loop [] c came h = h
  receive_all_keeps loop ((msg_type, payload) ∷ messages) c (now, later) h =
      receive_all_keeps loop messages _ later (on_message-IsAuthentic loop msg_type payload c now h)

each_message :
    (all messages : List (ℕ × Bytes))
    → ((payload : Bytes) → Received messages payload → Received all payload)
    → All (λ m. (m.0 == 1) ≡ true → Received all m.1) messages
each_message all [] keep = tt
each_message all ((msg_type, payload) ∷ messages) keep = (
  λ is_beacon.
      let same : msg_type ≡ 1 = ground (arith, is_beacon) in
      keep payload (inl (ap (λ (t : ℕ). (t, payload)) same)),
  each_message all messages (λ b r. keep b (inr r)),
)

-- Whatever messages of whatever types a new controller receives: the beacon that it records, if it
-- records any, is what one of those messages reads as, which has the type of a beacon, 22 bytes, and
-- at their end the 8-byte authentication value of the bytes 1 to 13 under the controller's key.
pub receive_all-IsAuthentic :
    (p : Primitives)
    → IsSound p
    → (loop : Bool) (net_key app_key : Bytes) (iv_index : ℕ) (nodes : List (ℕ × Bytes))
      (src_addr seq tid : ℕ) (messages : List (ℕ × Bytes))
    → IsAnnounced p net_key messages
        (receive_all p loop messages
          (mesh_controller p net_key app_key iv_index nodes src_addr seq tid)).beacon
unfolding mesh_controller
receive_all-IsAuthentic p sound loop net_key app_key iv_index nodes src_addr seq tid messages =
    (receive_all_keeps p sound net_key messages loop messages _
      (each_message messages messages (λ payload r. r))
      (record { same_key = refl; recorded = tt })).recorded

-- What a temperature that is asked for comes to.
abbrev pub IsMoved : ℕ → ℕ → Type 0
IsMoved kelvin moved =
    ((kelvin < 800) × (moved ≡ 800))
    ⊎ ((800 ≤ kelvin) × (kelvin ≤ 20000) × (moved ≡ kelvin))
    ⊎ ((20000 < kelvin) × (moved ≡ 20000))

clamp-IsMoved : (kelvin : ℕ) → IsMoved kelvin (clamp kelvin)
unfolding clamp
clamp-IsMoved kelvin = ground arith

clamp-range : (kelvin : ℕ) → (ctl_temp_min ≤ clamp kelvin) × (clamp kelvin ≤ ctl_temp_max)
unfolding clamp
clamp-range kelvin = (ground arith, ground arith)

-- Whatever temperature is asked for, and a lightness of 16 bits: the message is encoded and goes
-- out in a request for a Light CTL Status. A lamp reads from it the lightness; the temperature that
-- was asked for, or 800 K where it was below that, or 20000 K where it was above; and the
-- transaction ID. The next command has the next ID, modulo 256.
pub set_ctl-request :
    (p : Primitives) (loop : Bool) (unicast : ℕ) (arrivals : List Attempt) (lightness kelvin : ℕ)
    (c : MeshController)
    → lightness < 2 ^ 16
    → c.tid < 256
    → (payload : Bytes) × (params : Bytes) × (set_ctl p loop unicast arrivals lightness kelvin c
        ≡ command p loop unicast arrivals ctl_settled
            (ok payload)
            op_light_ctl_status
            1
            (next_tid c))
      × (parse_access payload ≡ ok (op_light_ctl_set, params))
      × (word_at 0 params ≡ lightness)
      × IsMoved kelvin (word_at 2 params)
      × (get_or params 6 0 ≡ c.tid)
      × ((set_ctl p loop unicast arrivals lightness kelvin c).0.tid ≡ (c.tid + 1) % 256)
unfolding set_ctl command ask put_sent next_tid IsCtl IsInt16
set_ctl-request p loop unicast arrivals lightness kelvin c fits small =
    let (least, most) = clamp-range kelvin in
    let (payload, params, encoded, parsed, size, first, second, third, fourth) =
      light_ctl_set_lem lightness (clamp kelvin) (pos 0) c.tid true
        (fits, least, most, omega arith, small) in
    let sent : set_ctl p loop unicast arrivals lightness kelvin c
        ≡ command p loop unicast arrivals ctl_settled (ok payload) op_light_ctl_status 1
            (next_tid c) =
      ap
        (λ (r : Result Bytes).
          command p loop unicast arrivals ctl_settled r op_light_ctl_status 1 (next_tid c))
        encoded in
    (
      payload,
      params,
      sent,
      parsed,
      first,
      subst (IsMoved kelvin) (sym second) (clamp-IsMoved kelvin),
      fourth,
      ap (λ (r : MeshController × Result (Option ℕ)). r.0.tid) sent,
    )
