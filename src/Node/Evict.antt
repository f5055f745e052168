-- ===== src/Node/Evict.antt =====
-- What dropping a source and tracking another keep, making room for a source keeps.
use ha_bluetooth_mesh.Prelude.{ℕ, Bool, true, false, List, [], ◌∷◌, ltb, if◌then◌else◌, length}
use ha_bluetooth_mesh.Transport.Assembler.{SegmentAssembler}
use ha_bluetooth_mesh.Node.{
  MeshNode, max_tracked_segment_sources, idle_source, drop_source, evict_one_source, new_assembler,
}

pub if-stays {ℓ} :
    {A : Type ℓ} (P : A → Type 0) (b : Bool) (x y : A) → P x → P y → P (if b then x else y)
if-stays P true x y h k = h
if-stays P false x y h k = k

module _ (P : MeshNode → Type 0)
    (dropped : (src : ℕ) (n : MeshNode) → P n → P (drop_source src n)) where
  pub evict_one_source-keeps : (n : MeshNode) → P n → P (evict_one_source n)
  unfolding evict_one_source
  evict_one_source-keeps n h = go n.assemblers
    where
      go :
          (table : List (ℕ × SegmentAssembler))
          → P (elim table as (λ x. MeshNode) [
            | [] ↦ n
            | first ∷ table ↦ drop_source (idle_source first.0 (first ∷ table)) n
          ])
      go [] = h
      go (first ∷ table) = dropped (idle_source first.0 (first ∷ table)) n h

  pub new_assembler-keeps :
      (src : ℕ) (n : MeshNode)
      → ((n : MeshNode) (table : List (ℕ × SegmentAssembler))
          → P n
          → P (record n { assemblers = table }))
      → P n
      → P (new_assembler src n)
  unfolding new_assembler
  new_assembler-keeps src n tracked h =
      let room = ltb (length n.assemblers) max_tracked_segment_sources in
      tracked (if room then n else evict_one_source n) _
        (if-stays P room n (evict_one_source n) h (evict_one_source-keeps n h))
