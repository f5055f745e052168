-- ===== src/Node/Request.antt =====
-- `MeshNode.request` of src/btmesh/node.py, a coroutine. What the event loop does while it waits is
-- a parameter, an `Attempt` for each transmission: the PDUs that arrive before the coroutine goes
-- on, and those that arrive after the wait has timed out. `retries`, which the code checks, is
-- from 0 up. An exception of `handle_network_pdu` goes to the bearer, not to the request.
use ha_bluetooth_mesh.Prelude.{
  ℕ, zero, suc, ◌+◌, Bool, true, false, Option, none, some, List, [], ◌∷◌, ◌++◌, ◌==◌,
  if◌then◌else◌, not,
}
use Prim.Native.Nat.{max}
use ha_bluetooth_mesh.Prelude.Bytes.{Bytes}
use ha_bluetooth_mesh.Prelude.Outcome.{Result, Error, ok, err, timeout_error}
use ha_bluetooth_mesh.Crypto.{Primitives}
use ha_bluetooth_mesh.Node.{MeshNode, Handled, ReceivedMessage, Waiter}
use ha_bluetooth_mesh.Node.Send.{send_access}
use ha_bluetooth_mesh.Node.Receive.{handle_network_pdu}
pub mod Laws
pub mod Answer

pub record Attempt : Type 0 where
  pub in_time : List Bytes
  pub late : List Bytes

abbrev pub silence : Attempt
silence = record { in_time = []; late = [] }

-- A new future: a ticket above those in use.
unfoldable pub fresh_ticket : List Waiter → ℕ
fresh_ticket [] = 0
fresh_ticket (w ∷ ws) = max (w.ticket + 1) (fresh_ticket ws)

-- `fut.result()`, if it is done
unfoldable pub result_of : ℕ → List Waiter → Option ReceivedMessage
result_of ticket [] = none
result_of ticket (w ∷ ws) = if w.ticket == ticket then w.result else result_of ticket ws

-- `[w for w in self._waiters if w[2] is not fut]`
unfoldable pub without : ℕ → List Waiter → List Waiter
without ticket [] = []
without ticket (w ∷ ws) =
    let rest = without ticket ws in if w.ticket == ticket then rest else w ∷ rest

-- A round that was decided ends the loop.
unfoldable pub next_attempt :
    (MeshNode → MeshNode × Result ReceivedMessage)
    → MeshNode × Option (Result ReceivedMessage)
    → MeshNode × Result ReceivedMessage
next_attempt next (n, some result) = (n, result)
next_attempt next (n, none) = next n

module _ (p : Primitives) (loop : Bool) where
  unfoldable pub feed : List Bytes → MeshNode → MeshNode
  feed [] n = n
  feed (raw ∷ raws) n = feed raws (handle_network_pdu p loop raw n).0

  module _ (dst opcode : ℕ) (payload : Bytes) (dev_key : Bool) (ttl ticket : ℕ) where
    -- What follows a transmission that did not raise. `none`: the next round begins.
    unfoldable pub await_response : Attempt → MeshNode → MeshNode × Option (Result ReceivedMessage)
    unfolding feed result_of
    await_response arrivals n = elim (result_of ticket n.waiters) [
      | some msg ↦ (n, some (ok msg))
      | none ↦
          let n' = feed arrivals.in_time n in
          elim (result_of ticket n'.waiters) [
            | some msg ↦ (n', some (ok msg))
            | none ↦ (feed arrivals.late n', none)
          ]
    ]

    unfoldable pub after_send : Attempt → Handled → MeshNode × Option (Result ReceivedMessage)
    unfolding await_response
    after_send arrivals (n, err e) = (n, some (err e))
    after_send arrivals (n, ok u) = await_response arrivals n

    -- The `for` loop, with `left` rounds to go, and the test behind it.
    unfoldable pub attempts : ℕ → List Attempt → MeshNode → MeshNode × Result ReceivedMessage
    unfolding after_send next_attempt result_of
    attempts zero arrivals n = elim (result_of ticket n.waiters) [
      | some msg ↦ (n, ok msg)
      | none ↦ (n, err timeout_error)
    ]
    attempts (suc left) [] n =
        next_attempt (attempts left [])
          (after_send silence (send_access p dst payload dev_key ttl n))
    attempts (suc left) (now ∷ arrivals) n =
        next_attempt (attempts left arrivals)
          (after_send now (send_access p dst payload dev_key ttl n))

  unfoldable pub request :
      ℕ → ℕ → Bytes → Bool → ℕ → ℕ → List Attempt → MeshNode → MeshNode × Result ReceivedMessage
  unfolding attempts fresh_ticket without
  request dst opcode payload dev_key ttl retries arrivals n =
      let ticket = fresh_ticket n.waiters in
      let waiter : Waiter = record { dst = dst; opcode = opcode; ticket = ticket; result = none } in
      let (n', result) =
        attempts dst opcode payload dev_key ttl ticket (retries + 1) arrivals
          (record n { waiters = n.waiters ++ (waiter ∷ []) }) in
      (record n' { waiters = without ticket n'.waiters }, result)
