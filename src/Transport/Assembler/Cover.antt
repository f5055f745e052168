-- ===== src/Transport/Assembler/Cover.antt =====
-- What a run of arrivals should give: which segments have come, and when the message is whole.
use ha_bluetooth_mesh.Prelude.{
  ℕ, zero, suc, ◌<◌, ◌≡◌, refl, arith, Bool, true, false, Option, none, some, List, [], ◌∷◌, ◌&&◌,
  ◌||◌, not, ◌==◌, if◌then◌else◌,
}
use ha_bluetooth_mesh.Prelude.Bytes.{Bytes}
use ha_bluetooth_mesh.Prelude.Outcome.{Result, ok}
use ha_bluetooth_mesh.Transport.{AccessSegment}
use ha_bluetooth_mesh.Transport.Assembler.{SegmentAssembler, add}

-- Membership in the list of SegO values that have arrived, and whether all below `k` have.
unfoldable pub seen_in : ℕ → List ℕ → Bool
seen_in i [] = false
seen_in i (j ∷ js) = j == i || seen_in i js

unfoldable pub covered : ℕ → List ℕ → Bool
unfolding seen_in
covered zero seen = true
covered (suc k) seen = seen_in k seen && covered k seen

pub covered_more : (k i : ℕ) (seen : List ℕ) → covered k seen ≡ true → covered k (i ∷ seen) ≡ true
unfolding covered
covered_more zero i seen h = refl
covered_more (suc k) i seen h = ground (arith, covered_more k i seen)

-- What `add` should return for each arrival: the message at the one that makes the cover whole.
unfoldable pub deliveries : ℕ → Bytes → List ℕ → List ℕ → List (Result (Option Bytes))
deliveries count upper seen [] = []
deliveries count upper seen (i ∷ order) =
    ok (if covered count (i ∷ seen) && not (covered count seen) then some upper else none)
    ∷ deliveries count upper (i ∷ seen) order

-- Segments given to `add` one after the other.
unfoldable pub add_all :
    SegmentAssembler → List AccessSegment → SegmentAssembler × List (Result (Option Bytes))
add_all a [] = (a, [])
add_all a (seg ∷ segs) =
    let (a', result) = add a seg in let (a'', results) = add_all a' segs in (a'', result ∷ results)

pub covered_none : (k : ℕ) → 0 < k → covered k [] ≡ false
unfolding covered
covered_none zero h = absurd (omega arith)
covered_none (suc k) h = refl
