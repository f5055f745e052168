-- ===== src/Network/Context.antt =====
-- What a context must hold for its PDUs to be readable, and that the constructor gives it.
use ha_bluetooth_mesh.Prelude.{ℕ, ◌^◌, ◌<◌, ◌≡◌, length}
use ha_bluetooth_mesh.Prelude.Bytes.{Bytes}
use ha_bluetooth_mesh.Crypto.{Primitives, IsSound}
use ha_bluetooth_mesh.Crypto.Sizes.{k2_sizes}
use ha_bluetooth_mesh.Network.{NetworkContext, network_context}

pub record IsContext (ctx : NetworkContext) : Type 0 where
  pub nid_fits : ctx.nid < 128
  pub encryption_key_size : length ctx.encryption_key ≡ 16
  pub privacy_key_size : length ctx.privacy_key ≡ 16
  pub iv_index_fits : ctx.iv_index < 2 ^ 32

-- Whatever the network key, `NetworkContext(...)` is readable if its IV Index has 32 bits.
pub network_context-IsContext :
    (p : Primitives)
    → IsSound p
    → (net_key : Bytes) (iv_index seq : ℕ) → iv_index < 2 ^ 32
    → IsContext (network_context p net_key iv_index seq)
unfolding network_context
network_context-IsContext p sound net_key iv_index seq fits =
    let (nid, encryption, privacy) = k2_sizes p sound net_key _ in
    record {
      nid_fits = nid;
      encryption_key_size = encryption;
      privacy_key_size = privacy;
      iv_index_fits = fits;
    }
