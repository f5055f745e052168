-- ===== src/MeshTransport/Tests.antt =====
-- Searches of src/custom_components/bluetooth_mesh/mesh_transport.py.
use ha_bluetooth_mesh.Prelude.{◌≡◌, refl, true, none, some, [], ◌∷◌, ◌&&◌, bytes_eq}
use ha_bluetooth_mesh.Prelude.Integers.{negsuc}
use ha_bluetooth_mesh.Crypto.{k3}
use ha_bluetooth_mesh.Crypto.Toy.{toy}
use ha_bluetooth_mesh.NetworkModel.{any}
use ha_bluetooth_mesh.MeshTransport.{Info, strongest, advert_age, find_proxy_addresses}
use ha_bluetooth_mesh.MeshTransport.Found.{is_in, is_wanted, is_in-find_proxy_addresses}

-- The owner of the entry last heard it 50 s ago, another scanner 4 s ago.
abbrev frozen : Info
frozen = record {
  address = 3 ∷ [];
  time = 10000;
  proxy_service = some (0 ∷ 1 ∷ 2 ∷ 3 ∷ 4 ∷ 5 ∷ 6 ∷ 7 ∷ 8 ∷ []);
  connectable = true;
  rssi = some (negsuc 60);
  heard = none ∷ some 56000 ∷ some 20000 ∷ [];
}

frozen_age : advert_age 60000 frozen ≡ 4000
unfolding advert_age
frozen_age = refl

strongest_first :
    strongest ((1 ∷ [], negsuc 90) ∷ (2 ∷ [], negsuc 40) ∷ (3 ∷ [], negsuc 90) ∷ [])
    ≡ (2 ∷ [], negsuc 40) ∷ (1 ∷ [], negsuc 90) ∷ (3 ∷ [], negsuc 90) ∷ []
unfolding strongest
strongest_first = refl

is_in-find_proxy_addresses_example :
    is_in (3 ∷ []) (find_proxy_addresses toy (1 ∷ []) (some 30000) [] true 60000 (frozen ∷ []))
    ≡ any
        (λ (i : Info).
          bytes_eq (3 ∷ []) i.address && is_wanted (k3 toy (1 ∷ [])) (some 30000) [] 60000 i)
        (frozen ∷ [])
is_in-find_proxy_addresses_example =
    is_in-find_proxy_addresses toy (1 ∷ []) (some 30000) [] true 60000 (frozen ∷ []) (3 ∷ [])
