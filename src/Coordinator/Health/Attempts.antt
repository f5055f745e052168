-- ===== src/Coordinator/Health/Attempts.antt =====
-- The attempts of src/custom_components/bluetooth_mesh/coordinator.py to connect, over a run of them.
use ha_bluetooth_mesh.Prelude.{
  ℕ, ◌+◌, Bool, true, false, Option, List, [], ◌∷◌, ◌&&◌, leb, if◌then◌else◌, bytes_eq,
}
use ha_bluetooth_mesh.NetworkModel.{Text}
use ha_bluetooth_mesh.MeshTransport.{ProxyPath, has_free_slot}
use ha_bluetooth_mesh.Coordinator.Health.{
  Health, Issue, health, set_available, connect_missed, connect_failed, proxy_restarted,
  stuck_proxy_fast_failure,
}

-- A link came up; no proxy advertised; a connect raised, with the paths of its address, the time
-- that it took and the time at its end; an advert was heard, with the scanners then registered.
pub data Attempt : Type 0 where
  reached missed : Attempt
  failed : (Text → Option ℕ) → List ProxyPath → ℕ → ℕ → Attempt
  heard : (Text → Option ℕ) → Attempt

unfoldable pub step : Attempt → Health → Health
unfolding set_available connect_missed connect_failed proxy_restarted
step reached h = set_available h
step missed h = connect_missed h
step (failed scanner_of paths elapsed now) h = connect_failed scanner_of paths elapsed now h
step (heard scanner_of) h = (proxy_restarted scanner_of h).0

-- What is left after the attempts, of which the newest stands first.
unfoldable pub after : List Issue → List Attempt → Health
unfolding health step
after registry [] = health registry
after registry (a ∷ past) = step a (after registry past)

-- The misses since the last link, newest first
unfoldable pub misses : List Attempt → ℕ
misses [] = 0
misses (reached ∷ past) = 0
misses (missed ∷ past) = misses past + 1
misses (failed scanner_of paths elapsed now ∷ past) = misses past + 1
misses (heard scanner_of ∷ past) = misses past

-- A link came up at some time.
unfoldable pub was_reached : List Attempt → Bool
was_reached [] = false
was_reached (reached ∷ past) = true
was_reached (missed ∷ past) = was_reached past
was_reached (failed scanner_of paths elapsed now ∷ past) = was_reached past
was_reached (heard scanner_of ∷ past) = was_reached past

-- The connect was refused fast, by the one proxy that hears the node, with a slot free.
unfoldable pub accuses : Text → List ProxyPath → ℕ → Bool
unfolding has_free_slot
accuses source [] elapsed = false
accuses source (p ∷ []) elapsed =
    leb elapsed stuck_proxy_fast_failure && has_free_slot p && bytes_eq p.source source
accuses source (p ∷ q ∷ paths) elapsed = false

-- How many of the newest attempts the proxy refused so, one after the other
unfoldable pub streak : Text → List Attempt → ℕ
unfolding accuses
streak source [] = 0
streak source (reached ∷ past) = 0
streak source (missed ∷ past) = 0
streak source (failed scanner_of paths elapsed now ∷ past) =
    let older = streak source past in if accuses source paths elapsed then older + 1 else 0
streak source (heard scanner_of ∷ past) = streak source past
