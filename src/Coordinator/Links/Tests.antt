-- ===== src/Coordinator/Links/Tests.antt =====
-- Runs of the links of src/custom_components/bluetooth_mesh/coordinator.py.
use ha_bluetooth_mesh.Prelude.{
  ◌+◌, ◌≤◌, ℕ, ◌≡◌, refl, ◌⊎◌, true, false, none, some, List, [], ◌∷◌, bytes_eq,
}
use ha_bluetooth_mesh.Coordinator.Cursor.{cursor}
use ha_bluetooth_mesh.Coordinator.Health.{may_attempt, probe_delay}
use ha_bluetooth_mesh.Coordinator.Links.{
  Links, wants_link, async_probe, Connect, raises, up, Radio, Ended, held, is_none,
}
use ha_bluetooth_mesh.Coordinator.Links.Calls.{
  links, Call, command, probe, join_late, link_dropped, run,
}
use ha_bluetooth_mesh.Coordinator.Links.Slots.{AllAmong}
use ha_bluetooth_mesh.Coordinator.Links.Leaks.{run-slots}
use ha_bluetooth_mesh.Coordinator.Links.Recovery.{async_probe-recovers}

abbrev radio : ℕ → Connect → Radio
radio now connect = record { now = now; is_connected = true; connect = connect }

abbrev answered : Ended
answered = record {
  raised = false;
  controller = record { seq = 9; tid = 4; beacon = none; failed = false };
}

-- A connect that raises after two links were up; a command over two links; a third node joins;
-- the main link is dropped.
abbrev evening : List Call
evening =
    probe (radio 1000 (raises (1 ∷ 2 ∷ []) (λ source. none) [] 700))
    ∷ command (radio 60000 (up 3 (3 ∷ []) ((4, 4 ∷ []) ∷ []) 2)) answered
    ∷ join_late 5 (5 ∷ []) true true 12
    ∷ link_dropped 3
    ∷ []

evening_slots : (run evening (links 0 true (cursor 0) [])).slots ≡ 4 ∷ 5 ∷ []
unfolding run links may_attempt bytes_eq
evening_slots = refl

evening_client : (run evening (links 0 true (cursor 0) [])).client ≡ some 4
unfolding run links may_attempt bytes_eq
evening_client = refl

run-slots_example :
    let l = run evening (links 0 true (cursor 0) []) in
    AllAmong l.slots (held l)
    × ((is_none l.controller ≡ false) ⊎ (l.slots ≡ []))
    × ((l.stopped ≡ false) ⊎ (l.slots ≡ []))
run-slots_example = run-slots 0 true (cursor 0) [] evening

-- A connect has failed twice, at 1 s and at 20 s; the node is back.
abbrev lost : Links
lost =
    run
      (probe (radio 1000 (raises [] (λ source. none) [] 700))
        ∷ probe (radio 20000 (raises [] (λ source. none) [] 700))
        ∷ [])
      (links 0 false (cursor 0) [])

lost_wait : lost.health.next_attempt ≡ 50000
unfolding run links may_attempt bytes_eq
lost_wait = refl

async_probe-recovers_example :
    let t = 21000 + probe_delay 21000 (wants_link lost) lost.health in
    let l' =
      async_probe (record { now = t; is_connected = true; connect = up 7 (3 ∷ []) [] 2 }) lost in
    ((21000 + 15000 ≤ t)
      × (lost.health.next_attempt ≤ t)
      × ((t ≡ 21000 + 15000) ⊎ (t ≡ lost.health.next_attempt)))
    × (l'.client ≡ some 7)
    × (wants_link l' ≡ false)
    × (l'.health.available ≡ true)
    × (l'.health.fail_count ≡ 0)
    × (l'.health.next_attempt ≡ 0)
unfolding run links may_attempt bytes_eq wants_link
async_probe-recovers_example = async_probe-recovers 21000 true 7 (3 ∷ []) [] 2 lost refl
