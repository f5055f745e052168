-- ===== src/Provisioner/Laws.antt =====
-- Every step of a session, and what a device has shown when its key is derived.
use ha_bluetooth_mesh.Prelude.{
  ℕ, ◌%◌, ◌≡◌, ◌≢◌, ◌∙◌, refl, sym, ap, subst, Bool, true, false, Option, none, some, [], ◌∷◌, ◌++◌,
  ◌==◌, if◌then◌else◌, Bool-cases, inl, inr, truthy, bytes_eq, bytes_eq→eq, bytes_eq_refl, drop,
  replicate, ◌⊎◌,
}
use ha_bluetooth_mesh.Prelude.Bytes.{Bytes}
use ha_bluetooth_mesh.Prelude.Outcome.{
  Result, Error, ok, err, from_option, is_bt_mesh_error, provisioning_error, provisioning_failed,
}
use ha_bluetooth_mesh.Crypto.{Primitives, aes_cmac, ccm_encrypt}
use ha_bluetooth_mesh.ProvPdu.{
  ProvisioningPdu, capabilities, public_key, confirmation, random, complete, failed, encode, decode,
}
use ha_bluetooth_mesh.Provisioner.{
  State, wait_capabilities, wait_public_key, wait_confirmation, wait_random, wait_complete, done,
  aborted, Provisioner, Handled, static_auth_value, checked, emit, go_to, send_key, after_caps,
  send_start, start_static, send_confirmation, send_sealed, choose_auth, on_capabilities,
  on_public_key, on_confirmation, send_data, on_random, dispatch, abort, aborting, handle_pdu,
}

-- The state after an accepted PDU.
pub data Advances : State → State → Type 0 where
  capabilities_taken : Advances wait_capabilities wait_public_key
  key_taken : Advances wait_public_key wait_confirmation
  confirmation_taken : Advances wait_confirmation wait_random
  random_taken : Advances wait_random wait_complete
  completed : Advances wait_complete done

-- What a handler leaves: the next state if it accepts, the old one if it raises.
data MovesTo (old new : State) : Handled → Type 0 where
  accepts : (p : Provisioner) → p.state ≡ new → MovesTo old new (p, ok tt)
  raises : (p : Provisioner) (e : Error) → p.state ≡ old → MovesTo old new (p, err e)

checked-MovesTo {ℓ} :
    {A : Type ℓ} (r : Result A) (p : Provisioner) (next : A → Handled) (old new : State)
    → p.state ≡ old
    → ((a : A) → MovesTo old new (next a))
    → MovesTo old new (checked r p next)
unfolding checked
checked-MovesTo (err e) p next old new h k = raises p e h
checked-MovesTo (ok a) p next old new h k = k a

emit-MovesTo :
    (pdu : ProvisioningPdu) (p : Provisioner) (next : Bytes → Provisioner → Handled)
    (old new : State)
    → p.state ≡ old
    → ((bs : Bytes) (q : Provisioner) → q.state ≡ old → MovesTo old new (next bs q))
    → MovesTo old new (emit pdu p next)
unfolding emit
emit-MovesTo pdu p next old new h k =
    checked-MovesTo (encode pdu) p _ old new h
      (λ bs. k bs (record p { sent = p.sent ++ (bs ∷ []) }) h)

go_to-MovesTo :
    (old new : State) (octets : Bytes) (q : Provisioner)
    → q.state ≡ old
    → MovesTo old new (go_to new octets q)
unfolding go_to
go_to-MovesTo old new octets q h = accepts (record q { state = new }) refl

abbrev ToKey : Handled → Type 0
ToKey = MovesTo wait_capabilities wait_public_key

send_key-MovesTo :
    (started : Bytes) (p : Provisioner) → p.state ≡ wait_capabilities → ToKey (send_key started p)
unfolding send_key
send_key-MovesTo started p h =
    emit-MovesTo _ (record p { start_params = drop 1 started }) (go_to wait_public_key) _ _ h
      (go_to-MovesTo _ _)

send_start-MovesTo :
    (caps : ProvisioningPdu) (auth_method : ℕ) (p : Provisioner)
    → p.state ≡ wait_capabilities
    → ToKey (send_start caps auth_method p)
unfolding send_start after_caps
send_start-MovesTo caps auth_method p h =
    checked-MovesTo (encode caps) p (after_caps auth_method p) _ _ h (λ octets.
      emit-MovesTo _ (record p { caps_params = drop 1 octets }) send_key _ _ h send_key-MovesTo)

choose_auth-MovesTo :
    (caps : ProvisioningPdu) (offers : Bool) (static_oob : Option Bytes) (p : Provisioner)
    → p.state ≡ wait_capabilities
    → ToKey (choose_auth caps offers static_oob p)
unfolding choose_auth start_static
choose_auth-MovesTo caps true (some value) p h =
    checked-MovesTo (static_auth_value value) p (start_static caps p) _ _ h
      (λ auth. send_start-MovesTo caps 1 (record p { auth_value = auth }) h)
choose_auth-MovesTo caps false (some value) p h =
    send_start-MovesTo caps 0 (record p { auth_value = replicate 16 0 }) h
choose_auth-MovesTo caps true none p h =
    send_start-MovesTo caps 0 (record p { auth_value = replicate 16 0 }) h
choose_auth-MovesTo caps false none p h =
    send_start-MovesTo caps 0 (record p { auth_value = replicate 16 0 }) h

-- A test that raises, and what follows it.
if-MovesTo :
    (b : Bool) (p : Provisioner) (rest : Handled) (old new : State)
    → p.state ≡ old
    → MovesTo old new rest
    → MovesTo old new (if b then (p, err provisioning_error) else rest)
if-MovesTo true p rest old new h k = raises p provisioning_error h
if-MovesTo false p rest old new h k = k

on_capabilities-MovesTo :
    (caps : ProvisioningPdu) (algorithms static_oob_type : ℕ) (p : Provisioner)
    → p.state ≡ wait_capabilities
    → ToKey (on_capabilities caps algorithms static_oob_type p)
unfolding on_capabilities
on_capabilities-MovesTo caps algorithms static_oob_type p h =
    let seen = record p { device_capabilities = some caps } in
    if-MovesTo (algorithms % 2 == 0) seen _ _ _ h
      (choose_auth-MovesTo caps (truthy (static_oob_type % 2)) p.static_oob seen h)

module _ (prims : Primitives) (exchange : Bytes → Option Bytes) where
  on_public_key-MovesTo :
      (x y : Bytes) (p : Provisioner)
      → p.state ≡ wait_public_key
      → MovesTo wait_public_key wait_confirmation (on_public_key prims exchange x y p)
  unfolding on_public_key send_confirmation
  on_public_key-MovesTo x y p h = if-MovesTo (bytes_eq (x ++ y) p.own_key) p _ _ _ h (
      checked-MovesTo (from_option provisioning_error (exchange (x ++ y))) p
        (send_confirmation prims exchange (x ++ y) p) _ _ h
        (λ secret. emit-MovesTo _ _ (go_to wait_confirmation) _ _ h (go_to-MovesTo _ _)))

  on_confirmation-MovesTo :
      (value : Bytes) (p : Provisioner)
      → p.state ≡ wait_confirmation
      → MovesTo wait_confirmation wait_random (on_confirmation prims exchange value p)
  unfolding on_confirmation
  on_confirmation-MovesTo value p h = if-MovesTo (bytes_eq value p.own_confirmation) p _ _ _ h (
      emit-MovesTo (random p.own_random) (record p { device_confirmation = value })
        (go_to wait_random) _ _ h (go_to-MovesTo _ _))

  send_data-MovesTo :
      (value : Bytes) (p : Provisioner)
      → p.state ≡ wait_random
      → MovesTo wait_random wait_complete (send_data prims exchange value p)
  unfolding send_data send_sealed
  send_data-MovesTo value p h =
      checked-MovesTo (ccm_encrypt prims _ _ _ 8 []) _ (send_sealed prims exchange _) _ _ h
        (λ sealed. emit-MovesTo _ _ (go_to wait_complete) _ _ h (go_to-MovesTo _ _))

  on_random-MovesTo :
      (value : Bytes) (p : Provisioner)
      → p.state ≡ wait_random
      → MovesTo wait_random wait_complete (on_random prims exchange value p)
  unfolding on_random
  on_random-MovesTo value p h =
      if-MovesTo (bytes_eq value p.own_random) p _ _ _ h
        (elim (Bool-cases
          (bytes_eq (aes_cmac prims p.conf_key (value ++ p.auth_value)) p.device_confirmation)) [
            | inl same ↦ rw same (send_data-MovesTo value p h)
            | inr other ↦ rw other (raises p provisioning_error h)
          ])

-- What a PDU does to a session, before an exception ends it.
data Steps (old : State) : Handled → Type 0 where
  took : (p : Provisioner) → Advances old p.state → Steps old (p, ok tt)
  refused : (p : Provisioner) (e : Error) → p.state ≡ old → Steps old (p, err e)

moved : (old new : State) (r : Handled) → Advances old new → MovesTo old new r → Steps old r
moved old new r a (accepts p e) = took p (subst (Advances old) (sym e) a)
moved old new r a (raises p e h) = refused p e h

-- The state that an exception leaves: only a completed session stays as it is.
unfoldable pub ended : State → State
ended done = done
ended s = aborted

abort-ended : (s : State) (p : Provisioner) → p.state ≡ s → (abort s p).state ≡ ended s
unfolding abort ended
abort-ended done p h = h
abort-ended s p h = refl

aborting-ended :
    (old : State) (p : Provisioner) (e : Error)
    → p.state ≡ old
    → (aborting (p, err e)).0.state ≡ (if is_bt_mesh_error e then ended old else old)
unfolding aborting
aborting-ended old p e h = elim (Bool-cases (is_bt_mesh_error e)) [
  | inl ours ↦
      rw ours (subst (λ (t : State). (abort t p).state ≡ ended old) (sym h) (abort-ended old p h))
  | inr other ↦ rw other h
]

-- A PDU was taken and the session moved on, or it raised: an exception of this library ends the
-- session, one of Python's own leaves its state.
abbrev pub Outcome : State → Handled → Type 0
Outcome old after =
    ((after.1 ≡ ok tt) × Advances old after.0.state)
    ⊎ ((e : Error) × (after.1 ≡ err e)
        × (after.0.state ≡ (if is_bt_mesh_error e then ended old else old)))

aborting-raises : (r : Handled) → (aborting r).1 ≡ r.1
unfolding aborting
aborting-raises (p, ok u) = refl
aborting-raises (p, err e) = refl

aborting-Outcome : (old : State) (r : Handled) → Steps old r → Outcome old (aborting r)
unfolding aborting
aborting-Outcome old r (took p a) = inl (refl, a)
aborting-Outcome old r (refused p e h) = inr (e, refl, aborting-ended old p e h)

module _ (prims : Primitives) (exchange : Bytes → Option Bytes) where
  dispatch-Steps :
      (s : State) (pdu : ProvisioningPdu) (p : Provisioner)
      → p.state ≡ s
      → Steps s (dispatch prims exchange s pdu p)
  unfolding dispatch
  dispatch-Steps wait_capabilities (capabilities a b c d e f g i) p h =
      moved _ _ _ capabilities_taken
        (on_capabilities-MovesTo (capabilities a b c d e f g i) b d p h)
  dispatch-Steps wait_public_key (public_key x y) p h =
      moved _ _ _ key_taken (on_public_key-MovesTo prims exchange x y p h)
  dispatch-Steps wait_confirmation (confirmation value) p h =
      moved _ _ _ confirmation_taken (on_confirmation-MovesTo prims exchange value p h)
  dispatch-Steps wait_random (random value) p h =
      moved _ _ _ random_taken (on_random-MovesTo prims exchange value p h)
  dispatch-Steps wait_complete complete p h = took (record p { state = done }) completed
  dispatch-Steps s (failed error_code) p h = refused p provisioning_failed h
  dispatch-Steps s pdu p h = refused p provisioning_error h

  checked-Steps :
      (r : Result ProvisioningPdu) (p : Provisioner)
      → Steps p.state (checked r p (λ pdu. dispatch prims exchange p.state pdu p))
  unfolding checked
  checked-Steps (err e) p = refused p e refl
  checked-Steps (ok pdu) p = dispatch-Steps p.state pdu p refl

  -- Any bytes from the device either are taken, and the session moves one state on (Capabilities,
  -- Public Key, Confirmation, Random, Complete, in this order), or raise an exception. If that is
  -- of a class of the library, the session is over unless it was done; if it is one of Python's
  -- own, its state is the old one.
  pub handle_pdu-Outcome :
      (octets : Bytes) (p : Provisioner) → Outcome p.state (handle_pdu prims exchange octets p)
  unfolding handle_pdu
  handle_pdu-Outcome octets p = aborting-Outcome p.state _ (checked-Steps (decode octets) p)

  -- What a device has shown by the random value that is taken.
  abbrev Shown : Bytes → Provisioner → Type 0
  Shown value p =
      (value ≢ p.own_random)
      × (aes_cmac prims p.conf_key (value ++ p.auth_value) ≡ p.device_confirmation)

  on_random-Shown :
      (value : Bytes) (p : Provisioner)
      → (on_random prims exchange value p).1 ≡ ok tt
      → Shown value p
  unfolding on_random
  on_random-Shown value p h = elim (Bool-cases (bytes_eq value p.own_random)) [
    | inl echoed ↦ absurd (cc (echoed, h))
    | inr fresh ↦
        elim (Bool-cases
          (bytes_eq (aes_cmac prims p.conf_key (value ++ p.auth_value)) p.device_confirmation)) [
            | inl same ↦
                (λ e. absurd (cc (fresh, e, bytes_eq_refl p.own_random)), bytes_eq→eq _ _ same)
            | inr other ↦ absurd (cc (fresh, other, h))
          ]
  ]

  dispatch-Shown :
      (pdu : ProvisioningPdu) (p : Provisioner)
      → (dispatch prims exchange wait_random pdu p).1 ≡ ok tt
      → (value : Bytes) × (pdu ≡ random value) × Shown value p
  unfolding dispatch
  dispatch-Shown (random value) p h = (value, refl, on_random-Shown value p h)
  dispatch-Shown pdu p h = cc

  checked-Shown :
      (r : Result ProvisioningPdu) (s : State) (p : Provisioner)
      → s ≡ wait_random
      → (aborting (checked r p (λ pdu. dispatch prims exchange s pdu p))).1 ≡ ok tt
      → (value : Bytes) × (r ≡ ok (random value)) × Shown value p
  unfolding checked aborting
  checked-Shown (err e) s p w h = cc
  checked-Shown (ok pdu) s p w h =
      let taken : (dispatch prims exchange wait_random pdu p).1 ≡ ok tt =
        subst (λ (t : State). (dispatch prims exchange t pdu p).1 ≡ ok tt) w
          (sym (aborting-raises (dispatch prims exchange s pdu p)) ∙ h) in
      let (value, same, shown) = dispatch-Shown pdu p taken in (value, ap ok same, shown)

  -- A session that waits for the device's random value takes nothing else, and takes it only if it
  -- is not the session's own and gives, under the confirmation key and with the authentication
  -- value, the confirmation that the device sent before.
  pub handle_pdu-Shown :
      (octets : Bytes) (p : Provisioner)
      → p.state ≡ wait_random
      → (handle_pdu prims exchange octets p).1 ≡ ok tt
      → (value : Bytes) × (decode octets ≡ ok (random value))
        × (value ≢ p.own_random)
        × (aes_cmac prims p.conf_key (value ++ p.auth_value) ≡ p.device_confirmation)
  unfolding handle_pdu
  handle_pdu-Shown octets p w h =
      let (value, same, shown) = checked-Shown (decode octets) p.state p w h in
      (value, same, shown.0, shown.1)
