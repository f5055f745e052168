-- ===== src/Pump/Failure.antt =====
-- `flush` of src/btmesh/pump.py after a send that raised.
use ha_bluetooth_mesh.Prelude.{
  ℕ, zero, suc, ◌+◌, ◌≤◌, ◌<◌, ◌≡◌, refl, sym, ap, subst, arith, Bool, true, false, Option, none,
  some, List, [], ◌∷◌, if◌then◌else◌, length, length-append,
}
use ha_bluetooth_mesh.Prelude.Outcome.{Error}
use ha_bluetooth_mesh.Pump.{
  Item, BearerPump, bearer_pump, item_of, put, start, replace, stop, take_from, take_next, finish,
  fail, other_take, keep, pick, other_finish, other_fail, Event, puts, starts, stops, takes, sends,
  raises, other_takes, other_sends, other_raises, step, run,
}
use ha_bluetooth_mesh.Pump.Log.{flight}

-- What can still be sent: what some task sends, and what waits.
abbrev load : BearerPump → ℕ
load s = length (flight s.current) + length s.others + length s.queue

-- At least `lost` more is unfinished than can still be sent.
abbrev IsBehind : ℕ → BearerPump → Type 0
IsBehind lost s = lost + load s ≤ s.unfinished

take_from-IsBehind :
    (lost : ℕ) (queue : List Item) (s : BearerPump)
    → lost + (length s.others + length queue) ≤ s.unfinished
    → s.queue ≡ queue
    → s.current ≡ none
    → IsBehind lost (take_from queue s)
unfolding take_from
take_from-IsBehind lost [] s h e free =
    omega (arith, h, ap length e, ap (λ (c : Option Item). length (flight c)) free)
take_from-IsBehind lost (item ∷ queue) s h e free = omega (arith, h)

take_next-IsBehind :
    (lost : ℕ) (current : Option Item) (s : BearerPump)
    → s.current ≡ current
    → IsBehind lost s
    → IsBehind lost (take_next current s)
unfolding take_next
take_next-IsBehind lost (some item) s e h = h
take_next-IsBehind lost none s e h = go s.is_running
  where
    go : (b : Bool) → IsBehind lost (if b then take_from s.queue s else s)
    go true = take_from-IsBehind lost s.queue s (omega (arith, h)) refl e
    go false = h

finish-IsBehind :
    (lost : ℕ) (current : Option Item) (s : BearerPump)
    → s.current ≡ current
    → IsBehind lost s
    → IsBehind lost (finish current s)
unfolding finish
finish-IsBehind lost none s e h = h
finish-IsBehind lost (some item) s e h =
    omega (arith, h, ap (λ (c : Option Item). length (flight c)) e)

fail-IsBehind :
    (lost : ℕ) (e : Error) (current : Option Item) (s : BearerPump)
    → IsBehind lost s
    → IsBehind lost (fail e current s)
unfolding fail
fail-IsBehind lost e none s h = h
fail-IsBehind lost e (some item) s h = omega (arith, h)

replace-IsBehind :
    (lost : ℕ) (running : Bool) (current : Option Item) (s : BearerPump)
    → s.current ≡ current
    → IsBehind lost s
    → IsBehind lost (replace running current s)
unfolding replace
replace-IsBehind lost false current s e h = h
replace-IsBehind lost true none s e h = h
replace-IsBehind lost true (some item) s e h =
    omega (arith, h, ap (λ (c : Option Item). length (flight c)) e)

other_take-IsBehind :
    (lost idle : ℕ) (queue : List Item) (s : BearerPump)
    → s.queue ≡ queue
    → IsBehind lost s
    → IsBehind lost (other_take idle queue s)
unfolding other_take
other_take-IsBehind lost zero queue s e h = h
other_take-IsBehind lost (suc idle) [] s e h = h
other_take-IsBehind lost (suc idle) (item ∷ queue) s e h = omega (arith, h, ap length e)

keep-some :
    (x : Item) (o : Option (Item × List Item)) (item : Item) (rest : List Item)
    → keep x o ≡ some (item, rest)
    → (left : List Item) × (o ≡ some (item, left)) × (length rest ≡ length left + 1)
unfolding keep
keep-some x none item rest h = cc
keep-some x (some (picked, left)) item rest h =
    let same : picked ≡ item = cc in
    let grown : x ∷ left ≡ rest = cc in
    (left, ap (λ (p : Item). some (p, left)) same, omega (arith, ap length grown))

length-pick :
    (n : ℕ) (items : List Item) (item : Item) (rest : List Item)
    → pick n items ≡ some (item, rest)
    → length items ≡ length rest + 1
unfolding pick
length-pick n [] item rest h = cc
length-pick zero (x ∷ items) item rest h =
    let same : items ≡ rest = cc in omega (arith, ap length same)
length-pick (suc n) (x ∷ items) item rest h =
    let (left, found, longer) = keep-some x (pick n items) item rest h in
    omega (arith, length-pick n items item left found, longer)

other_finish-IsBehind :
    (lost : ℕ) (o : Option (Item × List Item)) (s : BearerPump)
    → ((item : Item) (rest : List Item) → o ≡ some (item, rest) → length s.others ≡ length rest + 1)
    → IsBehind lost s
    → IsBehind lost (other_finish o s)
unfolding other_finish
other_finish-IsBehind lost none s sizes h = h
other_finish-IsBehind lost (some (item, rest)) s sizes h = omega (arith, h, sizes item rest refl)

other_fail-IsBehind :
    (lost : ℕ) (e : Error) (o : Option (Item × List Item)) (s : BearerPump)
    → ((item : Item) (rest : List Item) → o ≡ some (item, rest) → length s.others ≡ length rest + 1)
    → IsBehind lost s
    → IsBehind lost (other_fail e o s)
unfolding other_fail
other_fail-IsBehind lost e none s sizes h = h
other_fail-IsBehind lost e (some (item, rest)) s sizes h = omega (arith, h, sizes item rest refl)

run-IsBehind :
    (lost : ℕ) (es : List Event) (s : BearerPump) → IsBehind lost s → IsBehind lost (run s es)
unfolding run step put start stop
run-IsBehind lost [] s h = h
run-IsBehind lost (puts pdu msg_type ∷ es) s h =
    run-IsBehind lost es (put pdu msg_type s)
      (omega (arith, h, length-append s.queue (item_of s.msg_type msg_type pdu ∷ [])))
run-IsBehind lost (starts ∷ es) s h =
    run-IsBehind lost es (start s) (replace-IsBehind lost s.is_running s.current s refl h)
run-IsBehind lost (stops ∷ es) s h = run-IsBehind lost es (stop s) (omega (arith, h))
run-IsBehind lost (takes ∷ es) s h =
    run-IsBehind lost es (take_next s.current s) (take_next-IsBehind lost s.current s refl h)
run-IsBehind lost (sends ∷ es) s h =
    run-IsBehind lost es (finish s.current s) (finish-IsBehind lost s.current s refl h)
run-IsBehind lost (raises e ∷ es) s h =
    run-IsBehind lost es (fail e s.current s) (fail-IsBehind lost e s.current s h)
run-IsBehind lost (other_takes ∷ es) s h =
    run-IsBehind lost es (other_take s.idle_others s.queue s)
      (other_take-IsBehind lost s.idle_others s.queue s refl h)
run-IsBehind lost (other_sends n ∷ es) s h =
    run-IsBehind lost es (other_finish (pick n s.others) s)
      (other_finish-IsBehind lost (pick n s.others) s (length-pick n s.others) h)
run-IsBehind lost (other_raises n e ∷ es) s h =
    run-IsBehind lost es (other_fail e (pick n s.others) s)
      (other_fail-IsBehind lost e (pick n s.others) s (length-pick n s.others) h)

fail-IsBehind_first :
    (e : Error) (item : Item) (s : BearerPump)
    → 1 + (length s.others + length s.queue) ≤ s.unfinished
    → IsBehind 1 (fail e (some item) s)
unfolding fail
fail-IsBehind_first e item s h = omega (arith, h)

-- A send that raises leaves its PDU unfinished for good: whatever happens afterwards, a new start
-- of the task included, `flush` has something left to wait for.
pub run-unfinished :
    (default : ℕ) (before after : List Event) (e : Error) (item : Item)
    → (run (bearer_pump default) before).current ≡ some item
    → 0 < (run (step (run (bearer_pump default) before) (raises e)) after).unfinished
unfolding step bearer_pump
run-unfinished default before after e item sending =
    let s : BearerPump = run (bearer_pump default) before in
    let waits = run-IsBehind 0 before (bearer_pump default) (omega arith) in
    let flying : length (flight s.current) ≡ 1 =
      ap (λ (c : Option Item). length (flight c)) sending in
    let now : IsBehind 1 (fail e s.current s) =
      subst (λ (c : Option Item). IsBehind 1 (fail e c s)) (sym sending)
        (fail-IsBehind_first e item s (omega (arith, waits, flying))) in
    omega (arith, run-IsBehind 1 after (fail e s.current s) now)
