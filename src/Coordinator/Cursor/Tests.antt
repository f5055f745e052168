-- ===== src/Coordinator/Cursor/Tests.antt =====
-- Runs of the SEQ cursor of src/custom_components/bluetooth_mesh/coordinator.py.
use ha_bluetooth_mesh.Prelude.{ℕ, ◌≡◌, refl, Option, none, some, List, [], ◌∷◌, false}
use ha_bluetooth_mesh.Beacon.{SecureNetworkBeacon}
use ha_bluetooth_mesh.Coordinator.Cursor.{Saved, Store, Files}
use ha_bluetooth_mesh.Coordinator.Cursor.Run.{
  Event, link, join, acks, command, write, crash, begin, run, all_safe,
}
use ha_bluetooth_mesh.Coordinator.Cursor.Kept.{IsStore}
use ha_bluetooth_mesh.Coordinator.Cursor.Replay.{IsRising, run-IsRising}

abbrev disk : Store (Option Saved)
disk = record { load = λ d. d; save = λ x d. some (some x); remove = λ d. none }

disk-IsStore : IsStore disk
disk-IsStore x d = (some x, refl, refl)

abbrev fresh : Files (Option Saved)
fresh = record { store = none; legacy = none }

-- An older version has left a cursor in the file of the entry.
abbrev moved : Files (Option Saved)
moved = record { store = none; legacy = some (record { seq = some 50; iv_index = none }) }

abbrev announced : ℕ → SecureNetworkBeacon
announced iv_index = record {
  key_refresh = false;
  iv_update = false;
  network_id = [];
  iv_index = iv_index;
}

abbrev day : List Event
day =
    link 2
    ∷ command 1 5 none
    ∷ crash 3
    ∷ link 2
    ∷ acks 2
    ∷ join 2
    ∷ command 20 6 (some (announced 4))
    ∷ write
    ∷ link 2
    ∷ command 1 7 (some (announced 3))
    ∷ crash 0
    ∷ link 2
    ∷ []

-- The cursor that starts anew at 0 while the file has a SEQ of 0 is not written at once: the
-- process that dies within the delay spends the first numbers of the new IV Index again.
abbrev first_day : List Event
first_day =
    command 2 5 (some (announced 4))
    ∷ link 2
    ∷ crash 0
    ∷ command 2 6 (some (announced 4))
    ∷ link 2
    ∷ []

first_day_sent :
    (run disk 0 (begin disk 0 fresh []) first_day).sent
    ≡ (4, 1) ∷ (4, 0) ∷ (0, 33) ∷ (0, 32) ∷ (4, 1) ∷ (4, 0) ∷ (0, 1) ∷ (0, 0) ∷ []
unfolding run begin
first_day_sent = refl

-- The node acknowledges segments between two commands, and the link is closed: the next one starts
-- from the cursor of before, and spends the two numbers again.
abbrev idle_day : List Event
idle_day = link 1 ∷ command 1 5 none ∷ acks 2 ∷ link 2 ∷ []

idle_day_sent :
    (run disk 0 (begin disk 0 fresh []) idle_day).sent
    ≡ (0, 3) ∷ (0, 2) ∷ (0, 3) ∷ (0, 2) ∷ (0, 1) ∷ (0, 0) ∷ []
unfolding run begin
idle_day_sent = refl

run-IsRising_example : IsRising (run disk 0 (begin disk 0 moved []) day).sent
unfolding all_safe
run-IsRising_example = run-IsRising disk disk-IsStore 0 moved day refl
