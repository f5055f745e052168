-- ===== src/Access/Composition/Fuel.antt =====
-- The fuel of the loop over the elements, on any bytes.
use ha_bluetooth_mesh.Prelude.{
  ℕ, zero, suc, ◌+◌, ◌*◌, ◌≤◌, ◌≡◌, refl, arith, subst, false, List, [], ◌∷◌, true, ltb, ◌==◌, not,
  length, get_or, Bool-cases, inl, inr,
}
use ha_bluetooth_mesh.Prelude.Bytes.{Bytes}
use ha_bluetooth_mesh.Prelude.Outcome.{
  Result, Error, ok, err, ◌>>=◌, ◌>>◌, require, access_error, index_error,
}
use ha_bluetooth_mesh.Access.{parse_access}
use ha_bluetooth_mesh.Access.Decoders.{word_at}
use ha_bluetooth_mesh.Access.Composition.{
  CompositionElement, CompositionData, sig_at, vendor_at, elements_from,
  parse_composition_data_status, op_config_composition_data_status,
}

mapped-err {ℓ κ} :
    {A : Type ℓ} {B : Type κ} (r : Result A) (f : A → B) (e : Error)
    → (r >>= λ a. ok (f a)) ≡ err e
    → r ≡ err e
mapped-err (ok a) f e h = cc
mapped-err (err d) f e h = cc

elements_from-error :
    (fuel : ℕ) (params : Bytes) (off : ℕ) (e : Error)
    → length params ≤ off + fuel
    → elements_from fuel params off ≡ err e
    → e ≡ access_error
unfolding elements_from
elements_from-error zero params off e f h =
    let at_end : ltb off (length params) ≡ false = ground arith in absurd (cc (at_end, h))
elements_from-error (suc fuel) params off e f h =
    let num_s = get_or params (off + 2) 0 in
    let num_v = get_or params (off + 3) 0 in
    let end = off + 4 + 2 * num_s + 4 * num_v in
    let element : CompositionElement = record {
      loc = word_at off params;
      sig_models = sig_at num_s params (off + 4);
      vendor_models = vendor_at num_v params (off + 4 + 2 * num_s);
    } in
    let in_rest : elements_from fuel params end ≡ err e → e ≡ access_error =
      elements_from-error fuel params end e (omega arith) in
    elim (Bool-cases (ltb off (length params))) [
      | inr at_end ↦ absurd (cc (at_end, h))
      | inl more ↦ elim (Bool-cases (ltb (length params) (off + 4))) [
        | inl short ↦ cc (more, short, h)
        | inr header ↦
            let at_s : ltb (off + 2) (length params) ≡ true = ground (arith, header) in
            let at_v : ltb (off + 3) (length params) ≡ true = ground (arith, header) in
            elim (Bool-cases (ltb (length params) end)) [
              | inl cut ↦ cc (more, header, at_s, at_v, cut, h)
              | inr whole ↦ in_rest (
                  mapped-err (elements_from fuel params end) (λ es. element ∷ es) e
                    (cc (more, header, at_s, at_v, whole, h)))
            ]
      ]
    ]

parse_access-error : (payload : Bytes) (e : Error) → parse_access payload ≡ err e → e ≡ access_error
unfolding parse_access
parse_access-error [] e h = cc
parse_access-error (first ∷ rest) e h = ground arith

data_of : Bytes → List CompositionElement → CompositionData
data_of params es = record {
  page = get_or params 0 0;
  cid = word_at 1 params;
  pid = word_at 3 params;
  vid = word_at 5 params;
  crpl = word_at 7 params;
  features = word_at 9 params;
  elements = es;
}

-- The parser raises nothing but an AccessError, whatever bytes it is given: no index is out of range,
-- and the loop over the elements comes to its end, or to a truncated element, on the fuel that it has.
pub parse_composition_data_status-error :
    (payload : Bytes) (e : Error) → parse_composition_data_status payload ≡ err e → e ≡ access_error
unfolding parse_composition_data_status data_of
parse_composition_data_status-error payload e h =
    after (parse_access payload) (parse_access-error payload) h
  where
    after :
        (r : Result (ℕ × Bytes))
        → ((d : Error) → r ≡ err d → d ≡ access_error)
        → (r >>= λ got.
            require (got.0 == op_config_composition_data_status) access_error
            >> (require (not (ltb (length got.1) 11)) access_error
                >> (require (ltb 0 (length got.1)) index_error
                    >> (elements_from (length got.1) got.1 11 >>= λ es. ok (data_of got.1 es)))))
          ≡ err e
        → e ≡ access_error
    after (err d) a k =
        let same : d ≡ e = cc in subst (λ (x : Error). x ≡ access_error) same (a d refl)
    after (ok (opcode, params)) a k =
        elim (Bool-cases (opcode == op_config_composition_data_status)) [
          | inr other ↦ cc (other, k)
          | inl ours ↦ elim (Bool-cases (ltb (length params) 11)) [
            | inl short ↦ cc (ours, short, k)
            | inr long ↦
                let some_octet : ltb 0 (length params) ≡ true = ground (arith, long) in
                elements_from-error (length params) params 11 e (omega arith) (
                  mapped-err (elements_from (length params) params 11) (data_of params) e
                    (cc (ours, long, some_octet, k)))
          ]
        ]
