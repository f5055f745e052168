-- ===== src/Pump/Tests.antt =====
-- Concrete runs of the pump, and the theorems at concrete inputs.
use ha_bluetooth_mesh.Prelude.{◌<◌, ◌≡◌, refl, none, some, List, [], ◌∷◌}
use ha_bluetooth_mesh.Prelude.Outcome.{bearer_error}
use ha_bluetooth_mesh.Pump.{
  bearer_pump, Event, puts, starts, takes, sends, raises, other_sends, step, run, put_items,
  all_come,
}
use ha_bluetooth_mesh.Pump.Laws.{run-written}
use ha_bluetooth_mesh.Pump.Failure.{run-unfinished}

-- A configuration message between two network PDUs; the third is put while the second is sent.
abbrev events : List Event
events =
    puts (1 ∷ []) none
    ∷ puts (2 ∷ []) (some 2)
    ∷ starts
    ∷ takes
    ∷ sends
    ∷ takes
    ∷ puts (3 ∷ []) none
    ∷ sends
    ∷ takes
    ∷ sends
    ∷ []

run-written_example : (run (bearer_pump 0) events).written ≡ put_items 0 events
unfolding run bearer_pump all_come
run-written_example = run-written 0 events refl refl

-- Two tasks after a second start: the second item overtakes the first.
overtaken :
    (run (bearer_pump 0) (
      puts (1 ∷ []) none
      ∷ puts (2 ∷ []) none
      ∷ starts
      ∷ takes
      ∷ starts
      ∷ takes
      ∷ sends
      ∷ other_sends 0
      ∷ [])).written
    ≡ (0, 2 ∷ []) ∷ (0, 1 ∷ []) ∷ []
unfolding run bearer_pump
overtaken = refl

abbrev sending : List Event
sending = puts (1 ∷ []) none ∷ starts ∷ takes ∷ []

run-unfinished_example :
    0
    < (run
        (step (run (bearer_pump 0) sending) (raises bearer_error))
        (starts ∷ takes ∷ sends ∷ [])).unfinished
unfolding run bearer_pump
run-unfinished_example =
    run-unfinished 0 sending (starts ∷ takes ∷ sends ∷ []) bearer_error (0, 1 ∷ []) refl
