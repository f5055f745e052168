-- ===== src/Bearer/Scan.antt =====
-- src/btmesh/bearer.py: the scans for unprovisioned devices and for a proxy of the network. A scan
-- polls the scanner: each poll is what the scanner has discovered and the time, in milliseconds, at
-- which the loop looks at the clock. Starting and stopping the scanner is left out. A scan that has
-- not ended with the polls given is `none`.
pub mod First
use ha_bluetooth_mesh.Prelude.{
  ℕ, Bool, true, false, Option, none, some, List, [], ◌∷◌, ◌++◌, ◌&&◌, ◌||◌, leb, ◌==◌,
  if◌then◌else◌, bytes_eq, length, not,
}
use ha_bluetooth_mesh.Prelude.Bytes.{Bytes}
use ha_bluetooth_mesh.NetworkModel.{Text, any}
use ha_bluetooth_mesh.Bearer.{
  identification_network_id, parse_unprovisioned_service_data, parse_proxy_service_data,
}

-- An item of `discovered_devices_and_advertisement_data`: the address of the device, which stands
-- for it, and the service data of the two mesh services.
pub record Discovery : Type 0 where
  pub address : Text
  pub prov_service : Option Bytes
  pub proxy_service : Option Bytes

pub record UnprovisionedDevice : Type 0 where
  pub device : Text
  pub uuid : Bytes
  pub oob_info : ℕ

pub record ProxyCandidate : Type 0 where
  pub device : Text
  pub identification_type : ℕ
  pub parameter : Bytes

pub record Poll : Type 0 where
  pub discoveries : List Discovery
  pub time : ℕ

unfoldable pub unprovisioned_of : Text → Option (Bytes × ℕ) → List UnprovisionedDevice
unprovisioned_of device none = []
unprovisioned_of device (some (uuid, oob_info)) =
    record { device = device; uuid = uuid; oob_info = oob_info } ∷ []

unfoldable pub unprovisioned_in : Text → Option Bytes → List UnprovisionedDevice
unfolding unprovisioned_of
unprovisioned_in device none = []
unprovisioned_in device (some octets) =
    unprovisioned_of device (parse_unprovisioned_service_data octets)

unfoldable pub unprovisioned_from_discoveries : List Discovery → List UnprovisionedDevice
unfolding unprovisioned_in
unprovisioned_from_discoveries [] = []
unprovisioned_from_discoveries (d ∷ ds) =
    unprovisioned_in d.address d.prov_service ++ unprovisioned_from_discoveries ds

unfoldable pub candidate_of : Text → Option (ℕ × Bytes) → List ProxyCandidate
candidate_of device none = []
candidate_of device (some (id_type, parameter)) =
    record { device = device; identification_type = id_type; parameter = parameter } ∷ []

unfoldable pub candidate_in : Text → Option Bytes → List ProxyCandidate
unfolding candidate_of
candidate_in device none = []
candidate_in device (some octets) = candidate_of device (parse_proxy_service_data octets)

unfoldable pub proxy_candidates_from_discoveries : List Discovery → List ProxyCandidate
unfolding candidate_in
proxy_candidates_from_discoveries [] = []
proxy_candidates_from_discoveries (d ∷ ds) =
    candidate_in d.address d.proxy_service ++ proxy_candidates_from_discoveries ds

-- `stop_on` and `stop_on_any` say that the scan ends with these.
unfoldable pub is_wanted : Option Bytes → Bool → List UnprovisionedDevice → Bool
is_wanted none stop_on_any found = stop_on_any && not (length found == 0)
is_wanted (some uuid) stop_on_any found =
    any (λ (d : UnprovisionedDevice). bytes_eq d.uuid uuid) found
    || (stop_on_any && not (length found == 0))

unfoldable pub scan_unprovisioned :
    Option Bytes → Bool → ℕ → List Poll → Option (List UnprovisionedDevice)
unfolding unprovisioned_from_discoveries is_wanted
scan_unprovisioned stop_on stop_on_any deadline [] = none
scan_unprovisioned stop_on stop_on_any deadline (poll ∷ polls) =
    let later = scan_unprovisioned stop_on stop_on_any deadline polls in
    let found = unprovisioned_from_discoveries poll.discoveries in
    if is_wanted stop_on stop_on_any found || leb deadline poll.time then some found else later

-- `candidates[cand.device.address] = cand`
unfoldable pub set_candidate : ProxyCandidate → List ProxyCandidate → List ProxyCandidate
set_candidate c [] = c ∷ []
set_candidate c (old ∷ cs) =
    if bytes_eq old.device c.device then c ∷ cs else old ∷ set_candidate c cs

unfoldable pub is_match : Bytes → ProxyCandidate → Bool
is_match network_id c =
    (c.identification_type == identification_network_id) && bytes_eq c.parameter network_id

-- The inner loop of `find_proxy_node`: the match, if any, and the candidates so far.
unfoldable pub look :
    Bytes → List ProxyCandidate → List ProxyCandidate → Option ProxyCandidate × List ProxyCandidate
unfolding set_candidate is_match
look network_id [] candidates = (none, candidates)
look network_id (c ∷ cs) candidates =
    let seen = set_candidate c candidates in
    let later = look network_id cs seen in if is_match network_id c then (some c, seen) else later

unfoldable pub after_look :
    Bool
    → Option ProxyCandidate × List ProxyCandidate
    → Option (Option ProxyCandidate × List ProxyCandidate)
    → Option (Option ProxyCandidate × List ProxyCandidate)
after_look over (some c, candidates) later = some (some c, candidates)
after_look over (none, candidates) later = if over then some (none, candidates) else later

-- The outer loop of `find_proxy_node`
unfoldable pub find_from :
    Bytes
    → ℕ
    → List Poll
    → List ProxyCandidate
    → Option (Option ProxyCandidate × List ProxyCandidate)
unfolding look after_look proxy_candidates_from_discoveries
find_from network_id deadline [] candidates = none
find_from network_id deadline (poll ∷ polls) candidates =
    let looked = look network_id (proxy_candidates_from_discoveries poll.discoveries) candidates in
    after_look (leb deadline poll.time) looked (find_from network_id deadline polls looked.1)

unfoldable pub find_proxy_node :
    Bytes → ℕ → List Poll → Option (Option ProxyCandidate × List ProxyCandidate)
unfolding find_from
find_proxy_node network_id deadline polls = find_from network_id deadline polls []
