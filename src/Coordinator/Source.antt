-- ===== src/Coordinator/Source.antt =====
-- src/custom_components/bluetooth_mesh/coordinator.py: the address that the coordinator transmits
-- from and the key that it encrypts with, as the export and the options of the entry have them. The
-- warnings are left out.
pub mod Free
mod Tests
use ha_bluetooth_mesh.Prelude.{
  ℕ, Bool, true, false, Option, none, some, List, [], ◌∷◌, ◌&&◌, not, if◌then◌else◌,
}
use ha_bluetooth_mesh.Prelude.Integers.{ℤ, pos, int_lt, int_eq, mem}
use ha_bluetooth_mesh.Prelude.Outcome.{Result, ok, err}
use ha_bluetooth_mesh.NetworkModel.{
  Network, AppKey, unicast_min, unicast_max, unicast_addresses, free_unicast, app_key_for_models,
}

-- `SRC_ADDR`
abbrev pub src_addr : ℤ
src_addr = pos 0x7FFF

-- `CONTROLLED_MODEL_IDS`
abbrev pub controlled_model_ids : List ℤ
controlled_model_ids = pos 0x1000 ∷ pos 0x1300 ∷ pos 0x1303 ∷ pos 0x1306 ∷ []

unfoldable pub is_unicast : ℤ → Bool
unfolding int_lt
is_unicast a = not (int_lt a (pos unicast_min)) && not (int_lt (pos unicast_max) a)

-- `_configured_src_addr`
unfoldable pub configured_src_addr : ℤ → Network → Option ℤ
unfolding is_unicast mem unicast_addresses
configured_src_addr configured n =
    if not (is_unicast configured)
    then none
    else if mem configured (unicast_addresses n)
    then none
    else some configured

unfoldable pub derived : Result ℕ → Result ℤ
derived (ok a) = ok (pos a)
derived (err e) = err e

unfoldable pub or_derived : Option ℤ → Network → Result ℤ
unfolding derived free_unicast
or_derived (some chosen) n = ok chosen
or_derived none n = derived (free_unicast src_addr n)

-- `_resolve_src_addr`, with the address of the options, which is 0 by default
unfoldable pub resolve_src_addr : ℤ → Network → Result ℤ
unfolding configured_src_addr or_derived int_eq
resolve_src_addr configured n =
    if int_eq configured (pos 0)
    then or_derived none n
    else or_derived (configured_src_addr configured n) n

-- `_resolve_app_key`
unfoldable pub resolve_app_key : Network → AppKey
unfolding app_key_for_models
resolve_app_key n = app_key_for_models controlled_model_ids n
