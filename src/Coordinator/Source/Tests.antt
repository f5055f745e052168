-- ===== src/Coordinator/Source/Tests.antt =====
-- The source address of src/custom_components/bluetooth_mesh/coordinator.py at concrete networks.
use ha_bluetooth_mesh.Prelude.{◌≡◌, refl, arith, ◌⊎◌, false, true, [], ◌∷◌, ◌&&◌, not}
use ha_bluetooth_mesh.Prelude.Integers.{ℤ, pos, int_eq, mem}
use ha_bluetooth_mesh.Prelude.Outcome.{ok}
use ha_bluetooth_mesh.NetworkModel.{Network, unicast_addresses}
use ha_bluetooth_mesh.Coordinator.Source.{resolve_src_addr}
use ha_bluetooth_mesh.Coordinator.Source.Free.{is_free, resolve_src_addr-is_free}

-- One node, whose two elements have the highest two addresses.
abbrev network : Network
network = record {
  name = [];
  uuid = [];
  net_key = [];
  net_key_index = pos 0;
  app_key = [];
  app_key_index = pos 0;
  iv_index = pos 0;
  nodes =
      record {
        uuid = [];
        unicast = pos 0x7FFE;
        device_key = [];
        cid = pos 0;
        name = [];
        elements =
            record { index = pos 0; unicast = pos 0x7FFE; models = []; name = [] }
            ∷ record { index = pos 1; unicast = pos 0x7FFF; models = []; name = [] }
            ∷ [];
      }
      ∷ [];
  app_keys = [];
  groups = [];
}

resolve_src_addr-is_free_example :
    (a : ℤ) × (resolve_src_addr (pos 0x7FFE) network ≡ ok a)
    × (is_free a network ≡ true)
    × ((is_free (pos 0x7FFE) network && not (int_eq (pos 0x7FFE) (pos 0))) ≡ false
        ⊎ (a ≡ pos 0x7FFE))
unfolding mem unicast_addresses
resolve_src_addr-is_free_example =
    resolve_src_addr-is_free (pos 0x7FFE) network 0x1000 (omega arith) (omega arith) refl
