-- ===== src/MeshTransport.antt =====
-- src/custom_components/bluetooth_mesh/mesh_transport.py: which proxy to connect to. What Home
-- Assistant has heard is a parameter: its snapshot of adverts, and what each of its scanners says of
-- an address. Times are milliseconds of `monotonic`, none of them later than now. The
-- connection itself, its callback and the texts of `discovered_proxies` are left out.
pub mod Found
mod Tests
use ha_bluetooth_mesh.Prelude.{
  ℕ, ◌-◌, min, Bool, true, false, Option, none, some, List, [], ◌∷◌, ◌&&◌, ◌||◌, not, leb, ltb,
  ◌==◌, if◌then◌else◌, bytes_eq, map,
}
use ha_bluetooth_mesh.Prelude.Bytes.{Bytes}
use ha_bluetooth_mesh.Prelude.Integers.{ℤ, pos, negsuc, int_lt}
use ha_bluetooth_mesh.Crypto.{Primitives, k3}
use ha_bluetooth_mesh.NetworkModel.{Text, any}
use ha_bluetooth_mesh.Bearer.{identification_network_id, parse_proxy_service_data}

-- `PROXY_ADVERT_MAX_AGE`, 30 s
abbrev pub proxy_advert_max_age : ℕ
proxy_advert_max_age = 30000

-- `None` for a number that the backend does not say
pub record ProxyPath : Type 0 where
  pub source : Text
  pub name : Text
  pub rssi : Option ℤ
  pub free_slots : Option ℤ

unfoldable pub has_free_slot : ProxyPath → Bool
unfolding int_lt
has_free_slot p = elim p.free_slots [ none ↦ true | some free ↦ int_lt (pos 0) free ]

-- An entry of the snapshot; `heard` is the timestamp of its address at each scanner, where the
-- scanner has one.
pub record Info : Type 0 where
  pub address : Text
  pub time : ℕ
  pub proxy_service : Option Bytes
  pub connectable : Bool
  pub rssi : Option ℤ
  pub heard : List (Option ℕ)

unfoldable pub youngest : ℕ → ℕ → List (Option ℕ) → ℕ
youngest now age [] = age
youngest now age (none ∷ heard) = youngest now age heard
youngest now age (some t ∷ heard) = youngest now (min age (now - t)) heard

-- `_advert_age`
unfoldable pub advert_age : ℕ → Info → ℕ
unfolding youngest
advert_age now info =
    let age = now - info.time in
    if leb age proxy_advert_max_age then age else youngest now age info.heard

unfoldable pub is_network : Bytes → Option (ℕ × Bytes) → Bool
is_network network_id none = false
is_network network_id (some (id_type, parameter)) =
    (id_type == identification_network_id) && bytes_eq parameter network_id

-- `_matches_network_id`
unfoldable pub matches_network_id : Bytes → Option Bytes → Bool
unfolding is_network
matches_network_id network_id none = false
matches_network_id network_id (some octets) =
    is_network network_id (parse_proxy_service_data octets)

unfoldable pub is_young : Option ℕ → ℕ → Bool
is_young none age = true
is_young (some max_age) age = leb age max_age

-- What the loop of `find_proxy_addresses` keeps: -127 stands for an RSSI that is not there.
unfoldable pub rssi_of : Info → ℤ
rssi_of info = elim info.rssi [ some rssi ↦ rssi | none ↦ negsuc 126 ]

unfoldable pub is_kept : Bytes → Option ℕ → List Text → ℕ → Info → Bool
unfolding matches_network_id is_young advert_age
is_kept network_id max_age exclude now info =
    not (any (bytes_eq info.address) exclude)
    && matches_network_id network_id info.proxy_service
    && is_young max_age (advert_age now info)
    && info.connectable

unfoldable pub found_in : Bytes → Option ℕ → List Text → ℕ → List Info → List (Text × ℤ)
unfolding is_kept rssi_of
found_in network_id max_age exclude now [] = []
found_in network_id max_age exclude now (info ∷ infos) =
    let later = found_in network_id max_age exclude now infos in
    if is_kept network_id max_age exclude now info
    then (info.address, rssi_of info) ∷ later
    else later

-- The sort by falling RSSI, which keeps the order of equals
unfoldable pub insort : Text × ℤ → List (Text × ℤ) → List (Text × ℤ)
unfolding int_lt
insort item [] = item ∷ []
insort item (next ∷ items) =
    let rest = insort item items in
    if int_lt item.1 next.1 then next ∷ rest else item ∷ next ∷ items

unfoldable pub strongest : List (Text × ℤ) → List (Text × ℤ)
unfolding insort
strongest [] = []
strongest (item ∷ items) = insort item (strongest items)

unfoldable pub find_proxy_addresses :
    Primitives → Bytes → Option ℕ → List Text → Bool → ℕ → List Info → List Text
unfolding found_in strongest
find_proxy_addresses p net_key max_age exclude strongest_first now infos =
    let found = found_in (k3 p net_key) max_age exclude now infos in
    map (λ (item : Text × ℤ). item.0) (if strongest_first then strongest found else found)

unfoldable pub first_of : List Text → Option Text
first_of [] = none
first_of (address ∷ addresses) = some address

unfoldable pub find_proxy_address : Primitives → Bytes → Option ℕ → ℕ → List Info → Option Text
unfolding find_proxy_addresses first_of
find_proxy_address p net_key max_age now infos =
    first_of (find_proxy_addresses p net_key max_age [] false now infos)

-- `connect_paths`, from the paths in the order of the scanners
unfoldable pub strength : ProxyPath → ℤ
strength p = elim p.rssi [ some rssi ↦ rssi | none ↦ negsuc 126 ]

unfoldable pub insort_path : ProxyPath → List ProxyPath → List ProxyPath
unfolding int_lt strength
insort_path p [] = p ∷ []
insort_path p (q ∷ paths) =
    let rest = insort_path p paths in
    if int_lt (strength p) (strength q) then q ∷ rest else p ∷ q ∷ paths

unfoldable pub connect_paths : List ProxyPath → List ProxyPath
unfolding insort_path
connect_paths [] = []
connect_paths (p ∷ paths) = insort_path p (connect_paths paths)
