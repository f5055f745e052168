-- ===== src/Access/Composition.antt =====
-- src/btmesh/access.py: Composition Data Page 0. The loop over the elements runs on fuel, the
-- number of the parameters' octets: each element takes four of them at least. `params[i]` is
-- `get_or params i 0` after a `require` that raises the IndexError of an index out of range; a slice
-- raises nothing.
use ha_bluetooth_mesh.Prelude.{
  ℕ, zero, suc, ◌+◌, ◌-◌, ◌*◌, ◌≤◌, ◌<◌, Bool, true, false, List, [], ◌∷◌, ltb, ◌==◌, if◌then◌else◌,
  not, length, take, drop, slice, get_or,
}
use ha_bluetooth_mesh.Prelude.Bytes.{Bytes, from_little}
use ha_bluetooth_mesh.Prelude.Outcome.{
  Result, ok, err, ◌>>=◌, ◌>>◌, require, access_error, value_error, index_error,
}
use ha_bluetooth_mesh.Access.{parse_access}
use ha_bluetooth_mesh.Access.Decoders.{word_at}
pub mod Laws
pub mod Fuel

abbrev pub op_config_composition_data_status : ℕ
op_config_composition_data_status = 0x02

pub record CompositionElement : Type 0 where
  pub loc : ℕ
  pub sig_models : List ℕ
  pub vendor_models : List (ℕ × ℕ)

pub record CompositionData : Type 0 where
  pub page : ℕ
  pub cid : ℕ
  pub pid : ℕ
  pub vid : ℕ
  pub crpl : ℕ
  pub features : ℕ
  pub elements : List CompositionElement

-- `num_s` SIG model IDs from offset `off` on.
unfoldable pub sig_at : ℕ → Bytes → ℕ → List ℕ
sig_at zero params off = []
sig_at (suc num_s) params off = word_at off params ∷ sig_at num_s params (off + 2)

-- `num_v` vendor models from offset `off` on.
unfoldable pub vendor_at : ℕ → Bytes → ℕ → List (ℕ × ℕ)
vendor_at zero params off = []
vendor_at (suc num_v) params off =
    (word_at off params, word_at (off + 2) params) ∷ vendor_at num_v params (off + 4)

-- The `while` loop. Without fuel it stops with an error that the code does not raise.
unfoldable pub elements_from : ℕ → Bytes → ℕ → Result (List CompositionElement)
unfolding sig_at vendor_at
elements_from zero params off = if ltb off (length params) then err value_error else ok []
elements_from (suc fuel) params off =
    let num_s = get_or params (off + 2) 0 in
    let num_v = get_or params (off + 3) 0 in
    let after_sig = off + 4 + 2 * num_s in
    let end = after_sig + 4 * num_v in
    let rest = elements_from fuel params end in
    if ltb off (length params)
    then (if ltb (length params) (off + 4)
        then err access_error
        else (require (ltb (off + 2) (length params)) index_error
            >> (require (ltb (off + 3) (length params)) index_error
                >> (if ltb (length params) end
                    then err access_error
                    else (rest >>= λ elements. ok (
                        record {
                          loc = word_at off params;
                          sig_models = sig_at num_s params (off + 4);
                          vendor_models = vendor_at num_v params after_sig;
                        }
                        ∷ elements))))))
    else ok []

unfoldable pub parse_composition_data_status : Bytes → Result CompositionData
unfolding elements_from
parse_composition_data_status payload = do
  (opcode, params) ← parse_access payload
  require (opcode == op_config_composition_data_status) access_error
  require (not (ltb (length params) 11)) access_error
  require (ltb 0 (length params)) index_error
  elements ← elements_from (length params) params 11
  ok (record {
    page = get_or params 0 0;
    cid = word_at 1 params;
    pid = word_at 3 params;
    vid = word_at 5 params;
    crpl = word_at 7 params;
    features = word_at 9 params;
    elements = elements;
  })
