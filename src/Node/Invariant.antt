-- ===== src/Node/Invariant.antt =====
-- The segmentation tables of src/btmesh/node.py: bounded, and no timer without its assembler.
use ha_bluetooth_mesh.Prelude.{
  ℕ, ◌≤◌, ◌<◌, ◌≡◌, refl, ap, subst, arith, Bool, true, false, Option, some, List, [], ◌∷◌, ◌&&◌,
  ◌==◌, not, ltb, length, Bool-cases, ◌⊎◌, inl, inr,
}
use ha_bluetooth_mesh.Prelude.Bytes.{Bytes}
use ha_bluetooth_mesh.Prelude.Dict.{
  get, set, delete, has, has-set, has-delete, has-some, length-set-le, length-set_same,
  length-delete-le, length-delete-has,
}
use ha_bluetooth_mesh.Crypto.{Primitives}
use ha_bluetooth_mesh.Transport.Assembler.{SegmentAssembler}
use ha_bluetooth_mesh.Node.{
  MeshNode, AckTimer, mesh_node, max_tracked_segment_sources, add_device, cancel_sar_timers,
  idle_source, drop_source, evict_one_source, new_assembler, close, deliver,
}
use ha_bluetooth_mesh.Node.Evict.{evict_one_source-keeps}
use ha_bluetooth_mesh.Node.Kept.{IsKept}
use ha_bluetooth_mesh.Node.Calls.{Call, IsCallKept, run, run-keeps}

-- A source has an acknowledgment timer just when it has an incomplete timer, and neither without
-- an assembler.
pub record IsTracked (n : MeshNode) : Type 0 where
  pub bounded : length n.assemblers ≤ max_tracked_segment_sources
  pub paired : (src : ℕ) → has src n.ack_timers ≡ has src n.incomplete_timers
  pub owned : (src : ℕ) → (has src n.ack_timers && not (has src n.assemblers)) ≡ false

has-idle_source :
    (other : ℕ) (table : List (ℕ × SegmentAssembler))
    → (idle_source other table ≡ other) ⊎ (has (idle_source other table) table ≡ true)
unfolding idle_source has get
has-idle_source other [] = inl refl
has-idle_source other ((src, a) ∷ table) = ground (arith, has-idle_source other table)

drop_source-IsTracked : (src : ℕ) (n : MeshNode) → IsTracked n → IsTracked (drop_source src n)
unfolding drop_source cancel_sar_timers
drop_source-IsTracked src n h = record {
  bounded = omega (arith, h.bounded, length-delete-le src n.assemblers);
  paired = λ j.
      ground
        (arith, has-delete src j n.ack_timers, has-delete src j n.incomplete_timers, h.paired j);
  owned =
      λ j. ground (arith, has-delete src j n.ack_timers, has-delete src j n.assemblers, h.owned j);
}

-- The table that has a first source has the one to evict.
has-victim :
    (src : ℕ) (a : SegmentAssembler) (table : List (ℕ × SegmentAssembler))
    → has (idle_source src ((src, a) ∷ table)) ((src, a) ∷ table) ≡ true
unfolding idle_source has
has-victim src a table = ground (arith, has-idle_source src table)

evict_one_source-lt :
    (n : MeshNode)
    → 0 < length n.assemblers
    → length (evict_one_source n).assemblers < length n.assemblers
unfolding evict_one_source drop_source cancel_sar_timers
evict_one_source-lt n h = go n.assemblers refl
  where
    go :
        (table : List (ℕ × SegmentAssembler))
        → table ≡ n.assemblers
        → length
            (elim table as (λ x. MeshNode) [
              | [] ↦ n
              | first ∷ table ↦ drop_source (idle_source first.0 (first ∷ table)) n
            ]).assemblers
          < length n.assemblers
    go [] e = omega (arith, h, ap length e)
    go ((src, a) ∷ table) e =
        subst (λ t. length (delete (idle_source src ((src, a) ∷ table)) t) < length t) e
          (length-delete-has _ _ (has-victim src a table))

start-IsTracked :
    (src : ℕ) (a : SegmentAssembler) (n : MeshNode)
    → length n.assemblers < max_tracked_segment_sources
    → IsTracked n
    → IsTracked (record n { assemblers = set src a n.assemblers })
start-IsTracked src a n room h = record {
  bounded = omega (arith, length-set-le src a n.assemblers);
  paired = h.paired;
  owned = λ j. ground (arith, has-set src j a n.assemblers, h.owned j);
}

new_assembler-IsTracked : (src : ℕ) (n : MeshNode) → IsTracked n → IsTracked (new_assembler src n)
unfolding new_assembler
new_assembler-IsTracked src n h =
    elim (Bool-cases (ltb (length n.assemblers) max_tracked_segment_sources)) [
      | inl room ↦ rw (room, new_assembler) (start-IsTracked src _ n (ground arith) h)
      | inr full ↦
          rw (full, new_assembler)
            (start-IsTracked src _ (evict_one_source n)
              (ground (arith, evict_one_source-lt n, h.bounded))
              (evict_one_source-keeps IsTracked drop_source-IsTracked n h))
    ]

update-IsTracked :
    (src : ℕ) (old a : SegmentAssembler) (n : MeshNode)
    → get src n.assemblers ≡ some old
    → IsTracked n
    → IsTracked (record n { assemblers = set src a n.assemblers })
update-IsTracked src old a n there h = record {
  bounded = omega (arith, length-set_same src a old n.assemblers there, h.bounded);
  paired = h.paired;
  owned = λ j. ground (arith, has-set src j a n.assemblers, h.owned j);
}

cancel_sar_timers-IsTracked :
    (src : ℕ) (n : MeshNode) → IsTracked n → IsTracked (cancel_sar_timers src n)
unfolding cancel_sar_timers
cancel_sar_timers-IsTracked src n h = record {
  bounded = h.bounded;
  paired = λ j.
      ground
        (arith, has-delete src j n.ack_timers, has-delete src j n.incomplete_timers, h.paired j);
  owned = λ j. ground (arith, has-delete src j n.ack_timers, h.owned j);
}

schedule-IsTracked :
    (src : ℕ) (a : SegmentAssembler) (ack : Option AckTimer) (incomplete : Option ℕ) (n : MeshNode)
    → get src n.assemblers ≡ some a
    → IsTracked n
    → IsTracked (record n {
      ack_timers = set src ack n.ack_timers;
      incomplete_timers = set src incomplete n.incomplete_timers;
    })
schedule-IsTracked src a ack incomplete n there h = record {
  bounded = h.bounded;
  paired = λ j. ground (
    arith,
    has-set src j ack n.ack_timers,
    has-set src j incomplete n.incomplete_timers,
    h.paired j,
  );
  owned = λ j.
      ground (arith, has-set src j ack n.ack_timers, has-some src a n.assemblers there, h.owned j);
}

same-IsTracked :
    (n m : MeshNode)
    → m.assemblers ≡ n.assemblers
    → m.ack_timers ≡ n.ack_timers
    → m.incomplete_timers ≡ n.incomplete_timers
    → IsTracked n
    → IsTracked m
same-IsTracked n m same acks incompletes h = record {
  bounded = rw same h.bounded;
  paired = λ j. rw (acks, incompletes) (h.paired j);
  owned = λ j. rw (acks, same) (h.owned j);
}

IsTracked-IsKept : IsKept IsTracked
unfolding deliver
IsTracked-IsKept = record {
  spend = λ n count. same-IsTracked n _ refl refl refl;
  emit = λ n pdu. same-IsTracked n _ refl refl refl;
  note = λ n ack. same-IsTracked n _ refl refl refl;
  cancel = λ n src. cancel_sar_timers-IsTracked src n;
  schedule = λ n src a ack incomplete. schedule-IsTracked src a ack incomplete n;
  start = λ n src missing. new_assembler-IsTracked src n;
  update = λ n src old a. update-IsTracked src old a n;
  receive = λ n msg. same-IsTracked n _ refl refl refl;
}

add_device-IsTracked :
    (n : MeshNode) (unicast : ℕ) (key : Bytes)
    → IsTracked n
    → IsTracked (add_device unicast key n).0
unfolding add_device
add_device-IsTracked n unicast key h = elim (Bool-cases (length key == 16)) [
  | inl fits ↦
      rw (fits, add_device)
        (same-IsTracked n (record n { device_keys = set unicast key n.device_keys }) refl refl refl
          h)
  | inr other ↦ rw (other, add_device) h
]

IsTracked-IsCallKept : IsCallKept IsTracked
unfolding close has
IsTracked-IsCallKept = record {
  asked = record { handled = IsTracked-IsKept; seen = λ n pdu. same-IsTracked n _ refl refl refl };
  wait = λ n ws. same-IsTracked n _ refl refl refl;
  add = add_device-IsTracked;
  drop_source = λ n src. drop_source-IsTracked src n;
  close = λ n h. record { bounded = omega arith; paired = λ j. refl; owned = λ j. refl };
}

-- Whatever a new node is called to do and whichever of its timers fire, in any order: it tracks at
-- most 16 sources of segments, a source has the one SAR timer just when it has the other, and no
-- source has a timer without an assembler.
pub run-IsTracked :
    (p : Primitives) (loop : Bool) (netkey appkey : Bytes) (iv_index src_addr seq : ℕ)
    (cs : List Call)
    → IsTracked (run p loop (mesh_node p netkey appkey iv_index src_addr seq) cs)
unfolding mesh_node has
run-IsTracked p loop netkey appkey iv_index src_addr seq cs =
    run-keeps p loop IsTracked IsTracked-IsCallKept _ cs
      (record { bounded = omega arith; paired = λ j. refl; owned = λ j. refl })
