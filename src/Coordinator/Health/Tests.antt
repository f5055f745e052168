-- ===== src/Coordinator/Health/Tests.antt =====
-- Runs of attempts of src/custom_components/bluetooth_mesh/coordinator.py to connect.
use ha_bluetooth_mesh.Prelude.{
  ℕ, ◌+◌, ◌≤◌, ◌≡◌, refl, Option, none, some, List, [], ◌∷◌, ◌++◌, leb, map, bytes_eq, false,
  if◌then◌else◌,
}
use ha_bluetooth_mesh.Prelude.Integers.{pos}
use ha_bluetooth_mesh.NetworkModel.{Text}
use ha_bluetooth_mesh.MeshTransport.{ProxyPath}
use ha_bluetooth_mesh.Coordinator.Health.{proxy_stuck, proxy_unreachable, proxy_is_stuck}
use ha_bluetooth_mesh.Coordinator.Cursor.{cursor}
use ha_bluetooth_mesh.Coordinator.Links.{Links, Radio, up, async_probe}
use ha_bluetooth_mesh.Coordinator.Links.Calls.{links}
use ha_bluetooth_mesh.Coordinator.Health.Attempts.{Attempt, reached, missed, heard, after, streak}
use ha_bluetooth_mesh.Coordinator.Health.Stuck.{after-stuck}
use ha_bluetooth_mesh.Coordinator.Health.Backoff.{Failure, attempt, wait, failures-backoff}

abbrev kitchen : ProxyPath
kitchen = record { source = 65 ∷ []; name = 75 ∷ []; rssi = none; free_slots = some (pos 1) }

abbrev registered : ℕ → Text → Option ℕ
registered scanner source = some scanner

abbrev refusal : ℕ → Failure
refusal now = record { scanner_of = registered 7; paths = kitchen ∷ []; elapsed = 900; now = now }

-- Newest first: three fast refusals after a link, with an advert between.
abbrev outage : List Attempt
outage =
    attempt (refusal 90000)
    ∷ heard (registered 7)
    ∷ attempt (refusal 50000)
    ∷ attempt (refusal 20000)
    ∷ reached
    ∷ missed
    ∷ []

outage_repair : (after (proxy_unreachable ∷ []) outage).registry ≡ proxy_stuck ∷ []
unfolding after bytes_eq
outage_repair = refl

-- The proxy comes back with another scanner: the wait is over.
restart_wait : (after [] (heard (registered 8) ∷ outage)).backoff ≡ 0
unfolding after bytes_eq
restart_wait = refl

after-stuck_example :
    (p : ProxyPath) × ((after [] outage).refused_path ≡ some p) × (3 ≤ streak p.source outage)
unfolding proxy_is_stuck after bytes_eq
after-stuck_example = after-stuck [] outage refl

abbrev early : Radio
early = record { now = 140000; is_connected = false; connect = up 7 (3 ∷ []) [] 2 }

abbrev idle : Links
idle = links 0 false (cursor 0) []

failures-backoff_example :
    let h =
      after []
        (map attempt (refusal 90000 ∷ refusal 50000 ∷ refusal 20000 ∷ []) ++ (reached ∷ [])) in
    (h.backoff ≡ wait 2)
    × (h.next_attempt ≡ 90000 + wait 2)
    × (async_probe early (record idle { health = h }) ≡ (
        if leb (90000 + wait 2) 140000
        then async_probe early (record idle { health = h })
        else record idle { health = h }))
unfolding after
failures-backoff_example =
    failures-backoff [] (reached ∷ []) (refusal 90000) (refusal 50000 ∷ refusal 20000 ∷ []) early
      idle refl
