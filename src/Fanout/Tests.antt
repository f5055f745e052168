-- ===== src/Fanout/Tests.antt =====
-- The fan-out theorems at three links.
use ha_bluetooth_mesh.Prelude.{
  ℕ, ◌≡◌, Bool, true, false, none, [], ◌∷◌, ◌==◌, ◌&&◌, ◌||◌, if◌then◌else◌, not, length,
}
use ha_bluetooth_mesh.Prelude.Outcome.{ok, err, bearer_error}
use ha_bluetooth_mesh.Fanout.{FanoutBearer, filter, live, send}
use ha_bluetooth_mesh.Fanout.Laws.{send_lem}

abbrev three : FanoutBearer
three = record {
  bearers = 1 ∷ 2 ∷ 3 ∷ [];
  started = true;
  last_error = none;
  dead = false;
  has_on_drop = true;
  told = [];
}

abbrev first_fails : ℕ → Bool
first_fails b = b == 1

abbrev all_but_second : ℕ → Bool
all_but_second b = not (b == 2)

send_lem_example :
    let alive = live first_fails three in
    let reached = filter all_but_second alive in
    let none_reached = length reached == 0 in
    let after = send first_fails all_but_second three in
    (after.1 ≡ (if none_reached then err bearer_error else ok tt))
    × (after.0.bearers ≡ (if none_reached then alive else reached))
    × (after.0.dead ≡ (false || (none_reached && not (length alive == 0))))
send_lem_example = send_lem first_fails all_but_second three
