-- ===== src/Coordinator/Links/Leaks.antt =====
-- No GATT connection leaks over any run of calls of src/custom_components/bluetooth_mesh/coordinator.py.
use ha_bluetooth_mesh.Prelude.{
  ℕ, ◌≡◌, refl, sym, ap, ◌∙◌, subst, arith, ◌⊎◌, inl, inr, Bool, true, false, Option, none, some,
  List, [], ◌∷◌, ◌++◌, ◌||◌, not, ◌==◌, ==_refl, append_assoc, All-append, Option-cases,
}
use ha_bluetooth_mesh.Prelude.Dict.{get, delete}
use ha_bluetooth_mesh.NetworkModel.{Text}
use ha_bluetooth_mesh.Coordinator.Cursor.{Cursor}
use ha_bluetooth_mesh.Coordinator.Health.{Issue}
use ha_bluetooth_mesh.Coordinator.Links.{Links, Controller, close, of_option, held, is_none}
use ha_bluetooth_mesh.Coordinator.Links.Slots.{
  among, AllAmong, among-append, among-close, AllAmong-close, AllAmong-mono, AllAmong-nil,
}
use ha_bluetooth_mesh.Coordinator.Links.Held.{
  IsHeld, same-IsHeld, if-IsHeld, run_connected-IsHeld, async_probe-IsHeld,
  on_client_disconnected-IsHeld, async_reconnect-IsHeld, idle_callback-IsHeld, async_stop-IsHeld,
}
use ha_bluetooth_mesh.Coordinator.Links.Late.{
  is_unwanted, with_seq, join, async_join_late, is_main, promote, remove, drop_link,
  on_link_dropped,
}
use ha_bluetooth_mesh.Coordinator.Links.Calls.{
  links, Call, command, probe, disconnected, reconnect, idle, join_late, link_dropped, stop, step,
  run,
}

-- One more connection, and one more client.
AllAmong-more :
    (client : ℕ) (cs ds : List ℕ)
    → AllAmong cs ds
    → AllAmong (cs ++ (client ∷ [])) (ds ++ (client ∷ []))
AllAmong-more client cs ds h =
    All-append (λ (c : ℕ). among c (ds ++ (client ∷ [])) ≡ true) cs (client ∷ [])
      (AllAmong-mono cs ds (ds ++ (client ∷ []))
        (λ c is_in. ground (arith, among-append c ds (client ∷ []), is_in)) h)
      (ground (arith, among-append client ds (client ∷ []), ==_refl client), tt)

refuse-IsHeld :
    (client : ℕ) (l : Links)
    → IsHeld l
    → IsHeld (record l { slots = close client (l.slots ++ (client ∷ [])) })
unfolding held
refuse-IsHeld client l h = record {
  within =
      AllAmong-close client (l.slots ++ (client ∷ [])) (held l ++ (client ∷ [])) (held l)
        (λ c other is_in. ground (arith, among-append c (held l) (client ∷ []), other, is_in))
        (AllAmong-more client l.slots (held l) h.within);
  with_controller = h.with_controller;
  until_stop = h.until_stop;
}

join-IsHeld :
    (client : ℕ) (address : Text) (seq : ℕ) (l : Links)
    → IsHeld l
    → l.stopped ≡ false
    → is_none l.controller ≡ false
    → IsHeld (join client address seq l)
unfolding join held is_none with_seq
join-IsHeld client address seq l h live some' = record {
  within =
      subst (AllAmong (l.slots ++ (client ∷ [])))
        (append_assoc (of_option l.client) l.extra_clients (client ∷ []))
        (AllAmong-more client l.slots (held l) h.within);
  with_controller = inl (ground (arith, some'));
  until_stop = inl live;
}

async_join_late-IsHeld :
    (client : ℕ) (address : Text) (same_fanout added : Bool) (seq : ℕ) (l : Links)
    → IsHeld l
    → IsHeld (async_join_late client address same_fanout added seq l)
unfolding async_join_late is_unwanted
async_join_late-IsHeld client address same_fanout added seq l h =
    if-IsHeld (is_unwanted same_fanout address l || not added)
      (record l { slots = close client (l.slots ++ (client ∷ [])) }) (join client address seq l)
      (λ unwanted. refuse-IsHeld client l h)
      (λ wanted.
        join-IsHeld client address seq l h (ground (arith, wanted)) (ground (arith, wanted)))

among-is_main :
    (client c : ℕ) (o : Option ℕ)
    → is_main client o ≡ true
    → (client == c) ≡ false
    → among c (of_option o) ≡ false
unfolding is_main of_option
among-is_main client c none main other = cc
among-is_main client c (some d) main other = ground (arith, main, other)

held-is_main :
    (client : ℕ) (o : Option ℕ) (cs : List ℕ)
    → is_main client o ≡ true
    → (of_option o ++ cs ≡ [])
    → true ≡ false
unfolding is_main of_option
held-is_main client none cs main nil' = cc
held-is_main client (some d) cs main nil' = cc

close-nil :
    (client : ℕ) (o : Option ℕ) (cs : List ℕ)
    → of_option o ++ cs ≡ []
    → of_option o ++ close client cs ≡ []
unfolding of_option close
close-nil client none [] nil' = refl
close-nil client none (c ∷ cs) nil' = cc
close-nil client (some d) cs nil' = cc

promote-IsHeld :
    (client : ℕ) (extras : List ℕ) (l : Links)
    → l.extra_clients ≡ extras
    → is_main client l.client ≡ true
    → IsHeld l
    → IsHeld (promote client extras l)
unfolding promote held
promote-IsHeld client [] l same main h = h
promote-IsHeld client (next ∷ extras) l same main h = record {
  within =
      AllAmong-close client l.slots (held l) (next ∷ extras)
        (λ c other is_in.
          ap (among c) (sym same)
          ∙ ground (
            arith,
            among-append c (of_option l.client) l.extra_clients,
            among-is_main client c l.client main other,
            is_in,
          ))
        h.within;
  with_controller = elim h.with_controller [
    | inl some' ↦ inl some'
    | inr nil' ↦ absurd (ground (arith, held-is_main client l.client l.extra_clients main nil'))
  ];
  until_stop = h.until_stop;
}

spare-IsHeld :
    (client : ℕ) (l : Links)
    → IsHeld l
    → IsHeld
        (record l { extra_clients = close client l.extra_clients; slots = close client l.slots })
unfolding held
spare-IsHeld client l h = record {
  within =
      AllAmong-close client l.slots (held l) (of_option l.client ++ close client l.extra_clients)
        (λ c other is_in. ground (
          arith,
          among-append c (of_option l.client) l.extra_clients,
          among-append c (of_option l.client) (close client l.extra_clients),
          among-close c client l.extra_clients,
          other,
          is_in,
        ))
        h.within;
  with_controller = elim h.with_controller [
    | inl some' ↦ inl some'
    | inr nil' ↦ inr (close-nil client l.client l.extra_clients nil')
  ];
  until_stop = h.until_stop;
}

drop_link-IsHeld :
    (client : ℕ) (address : Text) (l : Links) → IsHeld l → IsHeld (drop_link client address l)
unfolding drop_link held
drop_link-IsHeld client address l h =
    let forgot = record l {
      link_by_bearer = delete client l.link_by_bearer;
      proxy_addresses = remove address l.proxy_addresses;
    } in
    let forgot' = same-IsHeld l forgot refl refl refl refl h in
    if-IsHeld (is_main client l.client) (promote client l.extra_clients forgot)
      (record forgot { extra_clients = close client l.extra_clients; slots = close client l.slots })
      (λ main. promote-IsHeld client l.extra_clients forgot refl main forgot')
      (λ spare. spare-IsHeld client forgot forgot')

on_link_dropped-IsHeld : (client : ℕ) (l : Links) → IsHeld l → IsHeld (on_link_dropped client l)
unfolding on_link_dropped
on_link_dropped-IsHeld client l h = go (get client l.link_by_bearer)
  where
    go :
        (o : Option Text) → IsHeld (elim o [ none ↦ l | some address ↦ drop_link client address l ])
    go none = h
    go (some address) = drop_link-IsHeld client address l h

step-IsHeld : (c : Call) (l : Links) → IsHeld l → IsHeld (step c l)
unfolding step
step-IsHeld (command r e) l h = run_connected-IsHeld r e l h
step-IsHeld (probe r) l h = async_probe-IsHeld r l h
step-IsHeld (disconnected c now is_running) l h = on_client_disconnected-IsHeld c now is_running l h
step-IsHeld (reconnect c r) l h = async_reconnect-IsHeld c r l h
step-IsHeld (idle r) l h = idle_callback-IsHeld r l h
step-IsHeld (join_late client address same_fanout added seq) l h =
    async_join_late-IsHeld client address same_fanout added seq l h
step-IsHeld (link_dropped c) l h = on_link_dropped-IsHeld c l h
step-IsHeld (stop r) l h = async_stop-IsHeld r l h

run-IsHeld : (cs : List Call) (l : Links) → IsHeld l → IsHeld (run cs l)
unfolding run
run-IsHeld [] l h = h
run-IsHeld (c ∷ cs) l h = run-IsHeld cs (step c l) (step-IsHeld c l h)

-- Without a controller nothing is open.
slots-nil : (l : Links) → IsHeld l → l.controller ≡ none → l.slots ≡ []
unfolding is_none
slots-nil l h none' = elim h.with_controller [
  | inl some' ↦ absurd (ground (arith, some', none'))
  | inr nil' ↦ AllAmong-nil l.slots (subst (AllAmong l.slots) nil' h.within)
]

links-IsHeld :
    (idle_timeout : ℕ) (all_proxies : Bool) (cursor : Cursor) (registry : List Issue)
    → IsHeld (links idle_timeout all_proxies cursor registry)
unfolding links held of_option
links-IsHeld idle_timeout all_proxies cursor registry = record {
  within = tt;
  with_controller = inr refl;
  until_stop = inl refl;
}

-- Over any calls from the start on, whatever the radio does in them: every GATT connection that is
-- open is one that the coordinator holds; none is open while it has no controller; and none is open
-- once it is stopped, whatever is called after that.
pub run-slots :
    (idle_timeout : ℕ) (all_proxies : Bool) (cursor : Cursor) (registry : List Issue)
    (cs : List Call)
    → let l = run cs (links idle_timeout all_proxies cursor registry) in
      AllAmong l.slots (held l)
      × ((is_none l.controller ≡ false) ⊎ (l.slots ≡ []))
      × ((l.stopped ≡ false) ⊎ (l.slots ≡ []))
unfolding is_none
run-slots idle_timeout all_proxies cursor registry cs =
    let start = links idle_timeout all_proxies cursor registry in
    let l = run cs start in
    let h = run-IsHeld cs start (links-IsHeld idle_timeout all_proxies cursor registry) in
    (
      h.within,
      by_controller l h (Option-cases l.controller),
      elim h.until_stop [ inl live ↦ inl live | inr none' ↦ inr (slots-nil l h none') ],
    )
  where
    by_controller :
        (l : Links)
        → IsHeld l
        → (l.controller ≡ none) ⊎ ((c : Controller) × (l.controller ≡ some c))
        → (is_none l.controller ≡ false) ⊎ (l.slots ≡ [])
    by_controller l h (inl none') = inr (slots-nil l h none')
    by_controller l h (inr (c, some')) = inl (rw some' refl)
