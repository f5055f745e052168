-- ===== src/MeshTransport/Found.antt =====
-- Which addresses the search of src/custom_components/bluetooth_mesh/mesh_transport.py returns.
use ha_bluetooth_mesh.Prelude.{
  ℕ, ◌≡◌, refl, ap, ◌∙◌, arith, Bool, true, false, Option, List, [], ◌∷◌, ◌&&◌, ◌||◌, not, ◌-◌, min,
  none, some, ltb, leb, length, take, bytes_eq, map, Bool-cases, inl, inr,
}
use ha_bluetooth_mesh.Prelude.Bytes.{Bytes}
use ha_bluetooth_mesh.Prelude.Integers.{ℤ, int_lt}
use ha_bluetooth_mesh.Crypto.{Primitives, k3}
use ha_bluetooth_mesh.NetworkModel.{Text, any}
use ha_bluetooth_mesh.Bearer.{parse_proxy_service_data}
use ha_bluetooth_mesh.MeshTransport.{
  Info, youngest, advert_age, is_network, matches_network_id, is_young, is_kept, found_in, insort,
  strongest, find_proxy_addresses,
}

-- `a in addresses`
abbrev pub is_in : Text → List Text → Bool
is_in a [] = false
is_in a (b ∷ bs) = bytes_eq a b || is_in a bs

-- Service data that carries the Network ID: the type 0x00, then its 8 octets.
abbrev pub carries : Bytes → Option Bytes → Bool
carries network_id none = false
carries network_id (some octets) =
    leb 9 (length octets) && bytes_eq (take 9 octets) (0x00 ∷ network_id)

-- Some scanner has heard the address within the age.
abbrev pub heard_within : ℕ → ℕ → List (Option ℕ) → Bool
heard_within now age [] = false
heard_within now age (none ∷ heard) = heard_within now age heard
heard_within now age (some t ∷ heard) = leb (now - t) age || heard_within now age heard

-- Within the age of the entry itself, or of another scanner's where the entry is above 30 s old.
abbrev pub is_fresh : Option ℕ → ℕ → Info → Bool
is_fresh none now i = true
is_fresh (some age) now i =
    leb (now - i.time) age || (ltb 30000 (now - i.time) && heard_within now age i.heard)

abbrev pub is_wanted : Bytes → Option ℕ → List Text → ℕ → Info → Bool
is_wanted network_id max_age exclude now i =
    not (is_in i.address exclude)
    && carries network_id i.proxy_service
    && is_fresh max_age now i
    && i.connectable

is_in-any : (a : Text) (bs : List Text) → any (bytes_eq a) bs ≡ is_in a bs
unfolding any
is_in-any a [] = refl
is_in-any a (b ∷ bs) = ap (λ (c : Bool). bytes_eq a b || c) (is_in-any a bs)

youngest-leb :
    (now age within : ℕ) (heard : List (Option ℕ))
    → leb (youngest now age heard) within ≡ (leb age within || heard_within now within heard)
unfolding youngest
youngest-leb now age within [] = ground arith
youngest-leb now age within (none ∷ heard) = youngest-leb now age within heard
youngest-leb now age within (some t ∷ heard) =
    ground (arith, youngest-leb now (min age (now - t)) within heard)

is_young-advert_age :
    (max_age : Option ℕ) (now : ℕ) (i : Info)
    → is_young max_age (advert_age now i) ≡ is_fresh max_age now i
unfolding is_young advert_age
is_young-advert_age none now i = refl
is_young-advert_age (some age) now i = ground (arith, youngest-leb now (now - i.time) age i.heard)

matches_network_id-carries :
    (network_id : Bytes) (service : Option Bytes)
    → matches_network_id network_id service ≡ carries network_id service
unfolding matches_network_id is_network parse_proxy_service_data bytes_eq
matches_network_id-carries network_id none = refl
matches_network_id-carries network_id (some []) = refl
matches_network_id-carries network_id (some (id_type ∷ octets)) = ground arith

is_kept-is_wanted :
    (network_id : Bytes) (max_age : Option ℕ) (exclude : List Text) (now : ℕ) (i : Info)
    → is_kept network_id max_age exclude now i ≡ is_wanted network_id max_age exclude now i
unfolding is_kept
is_kept-is_wanted network_id max_age exclude now i = ground (
  arith,
  is_in-any i.address exclude,
  matches_network_id-carries network_id i.proxy_service,
  is_young-advert_age max_age now i,
)

abbrev addresses : List (Text × ℤ) → List Text
addresses items = map (λ (item : Text × ℤ). item.0) items

is_in-insort :
    (a : Text) (item : Text × ℤ) (items : List (Text × ℤ))
    → is_in a (addresses (insort item items)) ≡ (bytes_eq a item.0 || is_in a (addresses items))
unfolding insort
is_in-insort a item [] = refl
is_in-insort a item (next ∷ items) = elim (Bool-cases (int_lt item.1 next.1)) [
  | inl weaker ↦ rw weaker (ground (arith, is_in-insort a item items))
  | inr stronger ↦ rw stronger refl
]

is_in-strongest :
    (a : Text) (items : List (Text × ℤ))
    → is_in a (addresses (strongest items)) ≡ is_in a (addresses items)
unfolding strongest
is_in-strongest a [] = refl
is_in-strongest a (item ∷ items) =
    is_in-insort a item (strongest items)
    ∙ ap (λ (b : Bool). bytes_eq a item.0 || b) (is_in-strongest a items)

is_in-found_in :
    (network_id : Bytes) (max_age : Option ℕ) (exclude : List Text) (now : ℕ) (infos : List Info)
    (a : Text)
    → is_in a (addresses (found_in network_id max_age exclude now infos))
      ≡ any (λ (i : Info). bytes_eq a i.address && is_wanted network_id max_age exclude now i) infos
unfolding found_in any
is_in-found_in network_id max_age exclude now [] a = refl
is_in-found_in network_id max_age exclude now (i ∷ infos) a =
    elim (Bool-cases (is_kept network_id max_age exclude now i)) [
      | inl kept ↦ rw kept (
          ground (
            arith,
            kept,
            is_kept-is_wanted network_id max_age exclude now i,
            is_in-found_in network_id max_age exclude now infos a,
          ))
      | inr dropped ↦ rw dropped (
          ground (
            arith,
            dropped,
            is_kept-is_wanted network_id max_age exclude now i,
            is_in-found_in network_id max_age exclude now infos a,
          ))
    ]

-- Whatever the order asked for, the search returns an address just when some entry of the snapshot
-- has it that is not excluded, has service data of type 0x00 that goes on with the Network ID of
-- the key, is connectable, and is within the age asked for, or has an age above 30 s while another
-- scanner heard the address within the age asked for.
pub is_in-find_proxy_addresses :
    (p : Primitives) (net_key : Bytes) (max_age : Option ℕ) (exclude : List Text)
    (strongest_first : Bool) (now : ℕ) (infos : List Info) (a : Text)
    → is_in a (find_proxy_addresses p net_key max_age exclude strongest_first now infos)
      ≡ any
          (λ (i : Info). bytes_eq a i.address && is_wanted (k3 p net_key) max_age exclude now i)
          infos
unfolding find_proxy_addresses
is_in-find_proxy_addresses p net_key max_age exclude true now infos a =
    is_in-strongest a (found_in (k3 p net_key) max_age exclude now infos)
    ∙ is_in-found_in (k3 p net_key) max_age exclude now infos a
is_in-find_proxy_addresses p net_key max_age exclude false now infos a =
    is_in-found_in (k3 p net_key) max_age exclude now infos a
