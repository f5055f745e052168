-- ===== src/Node/Calls.antt =====
-- What can happen to a MeshNode of src/btmesh/node.py, in any order: the calls of its methods and
-- the timers that fire.
use ha_bluetooth_mesh.Prelude.{ℕ, Bool, List, [], ◌∷◌}
use ha_bluetooth_mesh.Prelude.Bytes.{Bytes}
use ha_bluetooth_mesh.Crypto.{Primitives}
use ha_bluetooth_mesh.Node.{MeshNode, Waiter, add_device, drop_source, abandon_transfer, close}
use ha_bluetooth_mesh.Node.Send.{send_access, build_proxy_config_pdu}
use ha_bluetooth_mesh.Node.Receive.{handle_network_pdu, fire_ack}
use ha_bluetooth_mesh.Node.Kept.{config_pdu-keeps}
use ha_bluetooth_mesh.Node.Receive.Laws.{fire_ack-keeps, handle_network_pdu-keeps}
use ha_bluetooth_mesh.Node.Request.{Attempt, request}
use ha_bluetooth_mesh.Node.Request.Laws.{IsRequestKept, send_access-keeps, request-keeps}

pub data Call : Type 0 where
  adds : ℕ → Bytes → Call
  sends : ℕ → Bytes → Bool → ℕ → Call
  asks : ℕ → ℕ → Bytes → Bool → ℕ → ℕ → List Attempt → Call
  configures : Bytes → Call
  receives : Bytes → Call
  -- The acknowledgment timer and the incomplete timer of a source
  acks abandons : ℕ → Call
  closes : Call

-- Besides what a request changes by what it sends and receives: who waits, the device keys, and a source that is given up.
pub record IsCallKept (P : MeshNode → Type 0) : Type 0 where
  pub asked : IsRequestKept P
  pub wait : (n : MeshNode) (ws : List Waiter) → P n → P (record n { waiters = ws })
  pub add : (n : MeshNode) (unicast : ℕ) (key : Bytes) → P n → P (add_device unicast key n).0
  pub drop_source : (n : MeshNode) (src : ℕ) → P n → P (drop_source src n)
  pub close : (n : MeshNode) → P n → P (close n)

module _ (p : Primitives) (loop : Bool) where
  unfoldable pub step : MeshNode → Call → MeshNode
  unfolding add_device send_access request build_proxy_config_pdu handle_network_pdu fire_ack
      abandon_transfer close
  step n (adds unicast key) = (add_device unicast key n).0
  step n (sends dst payload dev_key ttl) = (send_access p dst payload dev_key ttl n).0
  step n (asks dst opcode payload dev_key ttl retries arrivals) =
      (request p loop dst opcode payload dev_key ttl retries arrivals n).0
  step n (configures message) = (build_proxy_config_pdu p message n).0
  step n (receives raw) = (handle_network_pdu p loop raw n).0
  step n (acks src) = (fire_ack p loop src n).0
  step n (abandons src) = abandon_transfer src n
  step n closes = close n

  unfoldable pub run : MeshNode → List Call → MeshNode
  unfolding step
  run n [] = n
  run n (c ∷ cs) = run (step n c) cs

  module _ (P : MeshNode → Type 0) (kept : IsCallKept P) where
    step-keeps : (n : MeshNode) (c : Call) → P n → P (step n c)
    unfolding step abandon_transfer
    step-keeps n (adds unicast key) h = kept.add n unicast key h
    step-keeps n (sends dst payload dev_key ttl) h =
        send_access-keeps p loop P kept.asked dst payload dev_key ttl n h
    step-keeps n (asks dst opcode payload dev_key ttl retries arrivals) h =
        request-keeps p loop P kept.asked dst opcode payload dev_key ttl retries arrivals n
          kept.wait h
    step-keeps n (configures message) h = config_pdu-keeps p P kept.asked.handled message n h
    step-keeps n (receives raw) h =
        handle_network_pdu-keeps p loop P kept.asked.handled raw n (λ pdu. kept.asked.seen n pdu h)
          h
    step-keeps n (acks src) h = fire_ack-keeps p loop P kept.asked.handled src n h
    step-keeps n (abandons src) h = kept.drop_source n src h
    step-keeps n closes h = kept.close n h

    pub run-keeps : (n : MeshNode) (cs : List Call) → P n → P (run n cs)
    unfolding run
    run-keeps n [] h = h
    run-keeps n (c ∷ cs) h = run-keeps (step n c) cs (step-keeps n c h)
