-- ===== src/Node/Request/Laws.antt =====
-- A property of the node that each single change of its state keeps is kept by what sends: by
-- `send_access` and by `request`, whatever arrives meanwhile.
use ha_bluetooth_mesh.Prelude.{
  ℕ, zero, suc, ◌+◌, Bool, false, Option, none, some, List, [], ◌∷◌, ◌++◌, Option-cases, inl, inr,
  length,
}
use ha_bluetooth_mesh.Prelude.Bytes.{Bytes}
use ha_bluetooth_mesh.Prelude.Dict.{set}
use ha_bluetooth_mesh.Prelude.Outcome.{Result, ok, err}
use ha_bluetooth_mesh.Crypto.{Primitives}
use ha_bluetooth_mesh.Network.{NetworkContext, DecodedNetworkPdu}
use ha_bluetooth_mesh.Network as Network
use ha_bluetooth_mesh.Transport.{trans_mic_len}
use ha_bluetooth_mesh.Node.{MeshNode, Handled, ReceivedMessage, Waiter}
use ha_bluetooth_mesh.Node.Send.{
  tx_key, seq_count, lower_pdus, send_all, send_lower, send_block, send_with, send_access,
}
use ha_bluetooth_mesh.Node.Kept.{IsKept}
use ha_bluetooth_mesh.Node.Receive.Laws.{handle_network_pdu-keeps}
use ha_bluetooth_mesh.Node.Request.{
  Attempt, silence, result_of, feed, next_attempt, await_response, after_send, attempts, request,
}

-- Besides what the handlers change: the last SEQ of a source.
pub record IsRequestKept (P : MeshNode → Type 0) : Type 0 where
  pub handled : IsKept P
  pub seen :
      (n : MeshNode) (pdu : DecodedNetworkPdu)
      → P n
      → P (record n { last_rx_seq = set pdu.src pdu.seq n.last_rx_seq })

module _ (p : Primitives) (loop : Bool) (P : MeshNode → Type 0) (kept : IsRequestKept P) where
  send_all-keeps :
      (ttl dst : ℕ) (pdus : List (ℕ × Bytes)) (n : MeshNode) → P n → P (send_all p ttl dst pdus n).0
  unfolding send_all
  send_all-keeps ttl dst [] n h = h
  send_all-keeps ttl dst ((seq, lower) ∷ pdus) n h =
      go (Network.encode p n.ctx false ttl seq n.src dst lower) (λ pdu.
        send_all-keeps ttl dst pdus (record n { sent = n.sent ++ (pdu ∷ []) })
          (kept.handled.emit n pdu h))
    where
      go :
          (r : Result Bytes)
          → ((pdu : Bytes)
              → P (send_all p ttl dst pdus (record n { sent = n.sent ++ (pdu ∷ []) })).0)
          → P
              (elim r as (λ x. Handled) [
                | err e ↦ (n, err e)
                | ok pdu ↦ send_all p ttl dst pdus (record n { sent = n.sent ++ (pdu ∷ []) })
              ]).0
      go (err e) rest = h
      go (ok pdu) rest = rest pdu

  send_lower-keeps :
      (ttl dst : ℕ) (pdus : Result (List (ℕ × Bytes))) (n : MeshNode)
      → P n
      → P (send_lower p ttl dst pdus n).0
  unfolding send_lower
  send_lower-keeps ttl dst (err e) n h = h
  send_lower-keeps ttl dst (ok pdus) n h = send_all-keeps ttl dst pdus n h

  send_block-keeps :
      (key : Bytes × Bool × ℕ) (dst ttl : ℕ) (payload : Bytes) (r : NetworkContext × Result ℕ)
      (n : MeshNode)
      → P (record n { ctx = r.0 })
      → P (send_block p key dst ttl payload r n).0
  unfolding send_block
  send_block-keeps key dst ttl payload (ctx, err e) n h = h
  send_block-keeps (key, akf, aid) dst ttl payload (ctx, ok seq) n h =
      send_lower-keeps ttl dst (lower_pdus p key akf aid seq dst payload (record n { ctx = ctx }))
        (record n { ctx = ctx }) h

  send_with-keeps :
      (key : Result (Bytes × Bool × ℕ)) (dst ttl : ℕ) (payload : Bytes) (n : MeshNode)
      → P n
      → P (send_with p key dst ttl payload n).0
  unfolding send_with
  send_with-keeps (err e) dst ttl payload n h = h
  send_with-keeps (ok key) dst ttl payload n h =
      let count = seq_count (length payload + trans_mic_len) in
      send_block-keeps key dst ttl payload (Network.next_seq n.ctx count) n
        (kept.handled.spend n count h)

  pub send_access-keeps :
      (dst : ℕ) (payload : Bytes) (dev_key : Bool) (ttl : ℕ) (n : MeshNode)
      → P n
      → P (send_access p dst payload dev_key ttl n).0
  unfolding send_access
  send_access-keeps dst payload dev_key ttl n h =
      send_with-keeps (tx_key dev_key dst n) dst ttl payload n h

  pub feed-keeps : (raws : List Bytes) (n : MeshNode) → P n → P (feed p loop raws n)
  unfolding feed
  feed-keeps [] n h = h
  feed-keeps (raw ∷ raws) n h =
      feed-keeps raws _
        (handle_network_pdu-keeps p loop P kept.handled raw n (λ pdu. kept.seen n pdu h) h)

  module _ (dst opcode : ℕ) (payload : Bytes) (dev_key : Bool) (ttl ticket : ℕ) where
    pub after_send-keeps :
        (arrivals : Attempt) (r : Handled)
        → P r.0
        → P (after_send p loop dst opcode payload dev_key ttl ticket arrivals r).0
    unfolding after_send await_response
    after_send-keeps arrivals (n, err e) h = h
    after_send-keeps arrivals (n, ok u) h = elim (Option-cases (result_of ticket n.waiters)) [
      | inr (msg, there) ↦ rw (there, await_response) h
      | inl open' ↦
          let h' : P (feed p loop arrivals.in_time n) = feed-keeps arrivals.in_time n h in
          elim (Option-cases (result_of ticket (feed p loop arrivals.in_time n).waiters)) [
            | inr (msg, there) ↦ rw (open', there, await_response) h'
            | inl late ↦ rw (open', late, await_response) (feed-keeps arrivals.late _ h')
          ]
    ]

    next_attempt-keeps :
        (next : MeshNode → MeshNode × Result ReceivedMessage)
        (r : MeshNode × Option (Result ReceivedMessage))
        → ((n : MeshNode) → P n → P (next n).0)
        → P r.0
        → P (next_attempt next r).0
    unfolding next_attempt
    next_attempt-keeps next (n, some result) k h = h
    next_attempt-keeps next (n, none) k h = k n h

    pub attempts-keeps :
        (left : ℕ) (arrivals : List Attempt) (n : MeshNode)
        → P n
        → P (attempts p loop dst opcode payload dev_key ttl ticket left arrivals n).0
    unfolding attempts
    attempts-keeps zero arrivals n h = elim (Option-cases (result_of ticket n.waiters)) [
      | inl open' ↦ rw (open', attempts) h
      | inr (msg, there) ↦ rw (there, attempts) h
    ]
    attempts-keeps (suc left) [] n h =
        next_attempt-keeps (attempts p loop dst opcode payload dev_key ttl ticket left [])
          (after_send p loop dst opcode payload dev_key ttl ticket silence
            (send_access p dst payload dev_key ttl n))
          (attempts-keeps left [])
          (after_send-keeps silence (send_access p dst payload dev_key ttl n)
            (send_access-keeps dst payload dev_key ttl n h))
    attempts-keeps (suc left) (now ∷ arrivals) n h =
        next_attempt-keeps (attempts p loop dst opcode payload dev_key ttl ticket left arrivals)
          (after_send p loop dst opcode payload dev_key ttl ticket now
            (send_access p dst payload dev_key ttl n))
          (attempts-keeps left arrivals)
          (after_send-keeps now (send_access p dst payload dev_key ttl n)
            (send_access-keeps dst payload dev_key ttl n h))

  pub request-keeps :
      (dst opcode : ℕ) (payload : Bytes) (dev_key : Bool) (ttl retries : ℕ)
      (arrivals : List Attempt) (n : MeshNode)
      → ((n : MeshNode) (ws : List Waiter) → P n → P (record n { waiters = ws }))
      → P n
      → P (request p loop dst opcode payload dev_key ttl retries arrivals n).0
  unfolding request
  request-keeps dst opcode payload dev_key ttl retries arrivals n wait h =
      wait _ _
        (attempts-keeps dst opcode payload dev_key ttl _ (retries + 1) arrivals _ (wait n _ h))
