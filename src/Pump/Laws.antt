-- ===== src/Pump/Laws.antt =====
-- What reaches the bearer through the queue of src/btmesh/pump.py, and what `flush` waits for.
use ha_bluetooth_mesh.Prelude.{
  ℕ, ◌≤◌, ◌≡◌, refl, sym, ap, ◌∙◌, subst, arith, Bool, true, false, Option, none, some, List, [],
  ◌∷◌, ◌++◌, ◌&&◌, not, append-nil, append_assoc, if◌then◌else◌, length, length-append,
}
use ha_bluetooth_mesh.Prelude.Outcome.{Error}
use ha_bluetooth_mesh.Pump.{
  Item, BearerPump, bearer_pump, item_of, put, start, replace, stop, take_from, take_next, finish,
  fail, other_take, pick, other_finish, other_fail, Event, puts, starts, stops, takes, sends,
  raises, other_takes, other_sends, other_raises, step, run, put_items, may_come, all_come,
}
use ha_bluetooth_mesh.Pump.Log.{
  items_of, kept, flight, IsLogged, kept_all, unfinished-le, length-zero, put-IsLogged,
  take_next-IsLogged, finish-IsLogged, stop-IsLogged, fail-IsLogged,
}

-- No other task was left running.
abbrev IsAlone : BearerPump → Type 0
IsAlone s = (s.idle_others ≡ 0) × (s.others ≡ [])

-- What an operation of the one task keeps.
abbrev IsSame : BearerPump → BearerPump → Type 0
IsSame s t = (t.msg_type ≡ s.msg_type) × (t.idle_others ≡ s.idle_others) × (t.others ≡ s.others)

same-IsAlone : (s t : BearerPump) → IsSame s t → IsAlone s → IsAlone t
same-IsAlone s t same alone = (same.1 ∙ alone.0, same.2 ∙ alone.1)

take_next-IsSame : (current : Option Item) (s : BearerPump) → IsSame s (take_next current s)
unfolding take_next take_from
take_next-IsSame (some item) s = (refl, refl, refl)
take_next-IsSame none s = go s.is_running s.queue
  where
    pick_up : Bool → List Item → BearerPump
    pick_up b queue = if b then take_from queue s else s

    go : (b : Bool) (queue : List Item) → IsSame s (pick_up b queue)
    go true [] = (refl, refl, refl)
    go true (item ∷ queue) = (refl, refl, refl)
    go false queue = (refl, refl, refl)

finish-IsSame : (current : Option Item) (s : BearerPump) → IsSame s (finish current s)
unfolding finish
finish-IsSame none s = (refl, refl, refl)
finish-IsSame (some item) s = (refl, refl, refl)

fail-IsSame : (e : Error) (current : Option Item) (s : BearerPump) → IsSame s (fail e current s)
unfolding fail
fail-IsSame e none s = (refl, refl, refl)
fail-IsSame e (some item) s = (refl, refl, refl)

-- The operations of the other tasks change nothing where there are none.
other_take_none : (s : BearerPump) → s.idle_others ≡ 0 → other_take s.idle_others s.queue s ≡ s
other_take_none s e = ap (λ (n : ℕ). other_take n s.queue s) e ∙ go
  where
    go : other_take 0 s.queue s ≡ s
    go = unfold other_take in refl

other_finish_none : (n : ℕ) (s : BearerPump) → s.others ≡ [] → other_finish (pick n s.others) s ≡ s
unfolding other_finish pick
other_finish_none n s e = ap (λ (l : List Item). other_finish (pick n l) s) e

other_fail_none :
    (n : ℕ) (e : Error) (s : BearerPump) → s.others ≡ [] → other_fail e (pick n s.others) s ≡ s
unfolding other_fail pick
other_fail_none n e s none_left = ap (λ (l : List Item). other_fail e (pick n l) s) none_left

-- A start of a task that does not run
start_stopped : (s : BearerPump) → s.is_running ≡ false → start s ≡ record s { is_running = true }
unfolding start replace
start_stopped s e = ap (λ (b : Bool). replace b s.current s) e

and-true : (a b : Bool) → (a && b) ≡ true → (a ≡ true) × (b ≡ true)
and-true true b h = (refl, h)
and-true false b h = cc

-- The rest of a run after a step that changes nothing
run_same :
    (es : List Event) (s t : BearerPump) (default : ℕ) (items : List Item)
    → t ≡ s
    → (all_come s es ≡ true
        → IsLogged s items
        → IsLogged (run s es) (items ++ put_items default es))
    → all_come t es ≡ true
    → IsLogged s items
    → IsLogged (run t es) (items ++ put_items default es)
run_same es s t default items same goes_on fine h =
    subst (λ (u : BearerPump). IsLogged (run u es) (items ++ put_items default es)) (sym same)
      (goes_on (subst (λ (u : BearerPump). all_come u es ≡ true) same fine) h)

run-IsLogged :
    (es : List Event) (s : BearerPump) (default : ℕ) (items : List Item)
    → s.msg_type ≡ default
    → IsAlone s
    → all_come s es ≡ true
    → IsLogged s items
    → IsLogged (run s es) (items ++ put_items default es)
unfolding run step put_items put stop all_come may_come
run-IsLogged [] s default items m alone fine h = subst (IsLogged s) (sym (append-nil items)) h
run-IsLogged (puts pdu msg_type ∷ es) s default items m alone fine h =
    let item : ℕ → Item = λ d. item_of d msg_type pdu in
    subst (IsLogged (run (put pdu msg_type s) es))
      (append_assoc items (item s.msg_type ∷ []) (put_items default es)
        ∙ ap (λ (d : ℕ). items ++ (item d ∷ put_items default es)) m)
      (run-IsLogged es (put pdu msg_type s) default (items ++ (item s.msg_type ∷ [])) m alone fine
        (put-IsLogged s items pdu msg_type h))
run-IsLogged (starts ∷ es) s default items m alone fine h =
    let (stopped, later) = and-true (not s.is_running) (all_come (start s) es) fine in
    let t : BearerPump = record s { is_running = true } in
    let same : start s ≡ t = start_stopped s (ground (arith, stopped)) in
    subst (λ (u : BearerPump). IsLogged (run u es) (items ++ put_items default es)) (sym same)
      (run-IsLogged es t default items m alone
        (subst (λ (u : BearerPump). all_come u es ≡ true) same later)
        (record { log = h.log; order = h.order; writes = h.writes; counts = h.counts }))
run-IsLogged (stops ∷ es) s default items m alone fine h =
    run-IsLogged es (stop s) default items m alone fine (stop-IsLogged s items h)
run-IsLogged (takes ∷ es) s default items m alone fine h =
    let same = take_next-IsSame s.current s in
    run-IsLogged es (take_next s.current s) default items (same.0 ∙ m)
      (same-IsAlone s (take_next s.current s) same alone) fine
      (take_next-IsLogged s.current s items refl h)
run-IsLogged (sends ∷ es) s default items m alone fine h =
    let same = finish-IsSame s.current s in
    run-IsLogged es (finish s.current s) default items (same.0 ∙ m)
      (same-IsAlone s (finish s.current s) same alone) fine
      (finish-IsLogged s.current s items refl h)
run-IsLogged (raises e ∷ es) s default items m alone fine h =
    let same = fail-IsSame e s.current s in
    run-IsLogged es (fail e s.current s) default items (same.0 ∙ m)
      (same-IsAlone s (fail e s.current s) same alone) fine
      (fail-IsLogged e s.current s items refl h)
run-IsLogged (other_takes ∷ es) s default items m alone fine h =
    run_same es s (other_take s.idle_others s.queue s) default items (other_take_none s alone.0)
      (run-IsLogged es s default items m alone) fine h
run-IsLogged (other_sends n ∷ es) s default items m alone fine h =
    run_same es s (other_finish (pick n s.others) s) default items (other_finish_none n s alone.1)
      (run-IsLogged es s default items m alone) fine h
run-IsLogged (other_raises n e ∷ es) s default items m alone fine h =
    run_same es s (other_fail e (pick n s.others) s) default items (other_fail_none n e s alone.1)
      (run-IsLogged es s default items m alone) fine h

new-IsLogged : (default : ℕ) → IsLogged (bearer_pump default) []
unfolding bearer_pump kept
new-IsLogged default = record { log = []; order = refl; writes = refl; counts = refl }

flushed :
    (s : BearerPump) (items : List Item) → IsLogged s items → s.unfinished ≡ 0 → s.written ≡ items
flushed s items h none_left =
    let sizes = unfinished-le s items h in
    let whole : length (items_of h.log) ≤ length (kept h.log) = omega (
      arith,
      h.counts,
      none_left,
      ap length h.writes,
      ap length h.order,
      length-append (items_of h.log) (flight s.current ++ s.queue),
    ) in
    let nothing : flight s.current ++ s.queue ≡ [] =
      length-zero _ (omega (arith, sizes, none_left, length-append (flight s.current) s.queue)) in
    sym h.writes
    ∙ kept_all h.log whole
    ∙ sym (append-nil (items_of h.log))
    ∙ ap (λ (l : List Item). items_of h.log ++ l) (sym nothing)
    ∙ h.order

-- In whatever order PDUs are put, and the task starts, stops, takes, sends and fails, as long as it
-- is started only while it does not run: when `flush` returns, the bearer has sent all that was put,
-- in the order in which it was put, each under the message type that was given or else the pump's.
pub run-written :
    (default : ℕ) (es : List Event)
    → all_come (bearer_pump default) es ≡ true
    → (run (bearer_pump default) es).unfinished ≡ 0
    → (run (bearer_pump default) es).written ≡ put_items default es
unfolding bearer_pump
run-written default es fine done =
    flushed _ (put_items default es)
      (run-IsLogged es (bearer_pump default) default [] refl (refl, refl) fine
        (new-IsLogged default))
      done
