-- ===== src/Node/Echo.antt =====
-- The relay of one PDU by another bearer: the node takes it once.
use ha_bluetooth_mesh.Prelude.{
  ℕ, ◌+◌, ◌-◌, ◌≡◌, refl, sym, ap, ◌∙◌, Bool, true, false, some, ◌==◌, ==_refl, if◌then◌else◌, ◌⊎◌,
  inl, inr, ltb,
}
use ha_bluetooth_mesh.Prelude.Bytes.{Bytes}
use ha_bluetooth_mesh.Prelude.Dict.{get, set, get-set_self}
use ha_bluetooth_mesh.Prelude.Outcome.{Result, Error, network_error, ok, err}
use ha_bluetooth_mesh.Crypto.{Primitives}
use ha_bluetooth_mesh.Network.{NetworkContext, DecodedNetworkPdu}
use ha_bluetooth_mesh.Network as Network
use ha_bluetooth_mesh.Node.{
  MeshNode, Handled, cancel_sar_timers, drop_source, new_assembler, deliver,
}
use ha_bluetooth_mesh.Node.Evict.{if-stays, new_assembler-keeps}
use ha_bluetooth_mesh.Node.Receive.{
  trying, handle_control, handle_access, is_echo, handle_decoded, handle_network_pdu,
}
use ha_bluetooth_mesh.Node.Kept.{IsKept, if-keeps}
use ha_bluetooth_mesh.Node.Receive.Laws.{handle_control-keeps, handle_access-keeps}
use ha_bluetooth_mesh.Node.EndToEnd.{decode-seq}

-- What decides how a PDU is read: the keys of the network, and the last SEQ of its source.
record IsSeen (ctx : NetworkContext) (pdu : DecodedNetworkPdu) (m : MeshNode) : Type 0 where
  network : m.ctx ≡ record ctx { seq = m.ctx.seq }
  last : get pdu.src m.last_rx_seq ≡ some pdu.seq

-- `next_seq` moves nothing but the cursor.
next_seq-network :
    (ctx : NetworkContext) (count : ℕ)
    → (Network.next_seq ctx count).0 ≡ record ctx { seq = (Network.next_seq ctx count).0.seq }
unfolding Network.next_seq
next_seq-network ctx count =
    let P : NetworkContext × Result ℕ → Type 0 = λ r. r.0 ≡ record ctx { seq = r.0.seq } in
    if-stays P (ltb count 1) (ctx, err network_error) _ refl
      (if-stays P (ltb 0xFFFFFF (ctx.seq + count - 1)) (ctx, err network_error)
        (record ctx { seq = ctx.seq + count }, ok ctx.seq) refl refl)

module _ (ctx : NetworkContext) (pdu : DecodedNetworkPdu) where
  drop_source-IsSeen :
      (src : ℕ) (m : MeshNode) → IsSeen ctx pdu m → IsSeen ctx pdu (drop_source src m)
  unfolding drop_source cancel_sar_timers
  drop_source-IsSeen src m h = record { network = h.network; last = h.last }

  new_assembler-IsSeen :
      (src : ℕ) (m : MeshNode) → IsSeen ctx pdu m → IsSeen ctx pdu (new_assembler src m)
  new_assembler-IsSeen src m h =
      new_assembler-keeps (IsSeen ctx pdu) drop_source-IsSeen src m
        (λ n table h. record { network = h.network; last = h.last }) h

  IsSeen-IsKept : IsKept (IsSeen ctx pdu)
  unfolding cancel_sar_timers deliver
  IsSeen-IsKept = record {
    spend = λ n count h. record {
      network =
          next_seq-network n.ctx count
          ∙ ap (λ (c : NetworkContext). record c { seq = (Network.next_seq n.ctx count).0.seq })
              h.network;
      last = h.last;
    };
    emit = λ n sent h. record { network = h.network; last = h.last };
    note = λ n ack h. record { network = h.network; last = h.last };
    cancel = λ n src h. record { network = h.network; last = h.last };
    schedule = λ n src a ack incomplete there h. record { network = h.network; last = h.last };
    start = λ n src missing. new_assembler-IsSeen src n;
    update = λ n src old a there h. record { network = h.network; last = h.last };
    receive = λ n msg h. record { network = h.network; last = h.last };
  }

-- What a PDU that was decoded leaves: the node as it was, or one that has seen the PDU.
handle_decoded-IsSeen :
    (p : Primitives) (loop : Bool) (n : MeshNode) (pdu : DecodedNetworkPdu)
    → ((handle_decoded p loop n pdu).0 ≡ n) ⊎ IsSeen n.ctx pdu (handle_decoded p loop n pdu).0
unfolding handle_decoded
handle_decoded-IsSeen p loop n pdu =
    let P : MeshNode → Type 0 = λ m. (m ≡ n) ⊎ IsSeen n.ctx pdu m in
    let n' : MeshNode = record n { last_rx_seq = set pdu.src pdu.seq n.last_rx_seq } in
    let seen : IsSeen n.ctx pdu n' = record {
      network = refl;
      last = get-set_self pdu.src pdu.seq n.last_rx_seq;
    } in
    let kept = IsSeen-IsKept n.ctx pdu in
    if-keeps P (pdu.src == n.src) (n, ok tt) _ (inl refl)
      (if-keeps P (is_echo pdu n) (n, ok tt) _ (inl refl)
        (if-keeps P pdu.ctl (handle_control pdu n') (handle_access p loop pdu n')
          (inr (handle_control-keeps p loop (IsSeen n.ctx pdu) kept pdu n' seen))
          (inr (handle_access-keeps p loop (IsSeen n.ctx pdu) kept pdu n' seen))))

is_echo-last :
    (pdu : DecodedNetworkPdu) (m : MeshNode)
    → get pdu.src m.last_rx_seq ≡ some pdu.seq
    → is_echo pdu m ≡ true
unfolding is_echo
is_echo-last pdu m h = rw (h, is_echo) (==_refl pdu.seq)

drops_echo :
    (x y : Bool) (m : MeshNode) (r : Handled)
    → y ≡ true
    → (if x then (m, ok tt) else if y then (m, ok tt) else r) ≡ (m, ok tt)
drops_echo true y m r h = refl
drops_echo false true m r h = refl
drops_echo false false m r h = cc

handle_decoded_seen :
    (p : Primitives) (loop : Bool) (ctx : NetworkContext) (pdu : DecodedNetworkPdu) (m : MeshNode)
    → IsSeen ctx pdu m
    → handle_decoded p loop m pdu ≡ (m, ok tt)
unfolding handle_decoded
handle_decoded_seen p loop ctx pdu m h =
    drops_echo (pdu.src == m.src) (is_echo pdu m) m _ (is_echo-last pdu m h.last)

after_decode :
    (p : Primitives) (loop : Bool) (raw : Bytes) (n m : MeshNode) (pdu : DecodedNetworkPdu)
    → Network.decode p n.ctx raw ≡ ok pdu
    → IsSeen n.ctx pdu m
    → (handle_network_pdu p loop raw m).0 ≡ m
unfolding handle_network_pdu trying
after_decode p loop raw n m pdu decoded h =
    let again : Network.decode p m.ctx raw ≡ ok pdu =
      ap (λ (c : NetworkContext). Network.decode p c raw) h.network
      ∙ decode-seq p n.ctx m.ctx.seq raw
      ∙ decoded in
    ap (λ (r : Result DecodedNetworkPdu). (trying network_error r m (handle_decoded p loop m)).0)
      again
    ∙ ap (λ (r : Handled). r.0) (handle_decoded_seen p loop n.ctx pdu m h)

Result-cases {ℓ} :
    {A : Type ℓ} (r : Result A) → ((a : A) × (r ≡ ok a)) ⊎ ((e : Error) × (r ≡ err e))
Result-cases (ok a) = inl (a, refl)
Result-cases (err e) = inr (e, refl)

-- A PDU that arrives again at once, as when a second proxy relays it, changes nothing: not the
-- tables, not what was delivered, and nothing is sent.
pub handle_network_pdu_twice :
    (p : Primitives) (loop : Bool) (raw : Bytes) (n : MeshNode)
    → (handle_network_pdu p loop raw (handle_network_pdu p loop raw n).0).0
      ≡ (handle_network_pdu p loop raw n).0
unfolding handle_network_pdu trying
handle_network_pdu_twice p loop raw n = elim (Result-cases (Network.decode p n.ctx raw)) [
  | inr (e, refused) ↦
      let same : (handle_network_pdu p loop raw n).0 ≡ n =
        ap
          (λ (r : Result DecodedNetworkPdu). (trying network_error r n (handle_decoded p loop n)).0)
          refused in
      ap (λ (m : MeshNode). (handle_network_pdu p loop raw m).0) same
  | inl (pdu, decoded) ↦
      let m : MeshNode = (handle_decoded p loop n pdu).0 in
      let same : (handle_network_pdu p loop raw n).0 ≡ m =
        ap
          (λ (r : Result DecodedNetworkPdu). (trying network_error r n (handle_decoded p loop n)).0)
          decoded in
      elim (handle_decoded-IsSeen p loop n pdu) [
        | inl stays ↦ ap (λ (m : MeshNode). (handle_network_pdu p loop raw m).0) (same ∙ stays)
        | inr seen ↦
            ap (λ (m : MeshNode). (handle_network_pdu p loop raw m).0) same
            ∙ after_decode p loop raw n m pdu decoded seen
            ∙ sym same
      ]
]
