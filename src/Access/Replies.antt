-- ===== src/Access/Replies.antt =====
-- The Status messages, laid out octet by octet, are read back.
use ha_bluetooth_mesh.Prelude.{
  ℕ, ◌+◌, ◌-◌, ◌*◌, ◌/◌, ◌%◌, ◌^◌, ◌≤◌, ◌<◌, ◌≡◌, ◌∙◌, refl, sym, ap, arith, true, false, none,
  some, List, [], ◌∷◌, ◌++◌, ltb, ==_refl, length,
}
use ha_bluetooth_mesh.Prelude.Bytes.{Bytes, be, le, from_big, from_little}
use ha_bluetooth_mesh.Prelude.Outcome.{ok, err, access_error}
use ha_bluetooth_mesh.Access.{parse_access, opcode_size, contains, expect_params}
use ha_bluetooth_mesh.Access.Encoders.{Signed, pos, neg, le_signed}
use ha_bluetooth_mesh.Access.Decoders.{
  signed_word, parse_light_ctl_status, parse_light_ctl_temperature_status,
  parse_config_model_app_status, op_light_ctl_status, op_light_ctl_temperature_status,
  op_config_model_app_status,
}

pub word_back : (w : ℕ) → w < 2 ^ 16 → w % 256 + 256 * (w / 256 % 256 + 256 * 0) ≡ w
word_back w h = omega arith

-- The numbers of 16 bits with a sign.
unfoldable pub IsInt16 : Signed → Type 0
IsInt16 (pos n) = n < 2 ^ 15
IsInt16 (neg n) = n < 2 ^ 15

pub signed_word-le_signed : (d : Signed) → IsInt16 d → signed_word (from_little (le_signed d)) ≡ d
unfolding signed_word le_signed from_little le IsInt16
signed_word-le_signed (pos n) h =
    let small : ltb n (2 ^ 15) ≡ true = ground arith in rw (word_back n (omega arith), small) refl
signed_word-le_signed (neg n) h =
    let w = 2 ^ 16 - (n + 1) in
    let large : ltb w (2 ^ 15) ≡ false = ground arith in
    let back : 2 ^ 16 - w - 1 ≡ n = omega arith in rw (word_back w (omega arith), large, back) refl

pub le_signed_octets : (d : Signed) → (a : ℕ) × (b : ℕ) × (le_signed d ≡ a ∷ b ∷ [])
unfolding le_signed le
le_signed_octets (pos n) = (_, _, refl)
le_signed_octets (neg n) = (_, _, refl)

-- A message is taken when it has the opcode that is expected and one of the lengths that are, and
-- gives its parameters then; all else is an AccessError.
pub expect_params_lem :
    (payload : Bytes) (opcode : ℕ) (lengths : List ℕ) (params : Bytes)
    → parse_access payload ≡ ok (opcode, params)
    → (contains lengths (length params) ≡ true → expect_params payload opcode lengths ≡ ok params)
      × (contains lengths (length params) ≡ false
          → expect_params payload opcode lengths ≡ err access_error)
unfolding expect_params
expect_params_lem payload opcode lengths params h =
    (λ c. rw (h, ==_refl opcode, c) refl, λ c. rw (h, ==_refl opcode, c) refl)

expects :
    (first second : ℕ) (params : Bytes) (lengths : List ℕ)
    → 0x80 ≤ first
    → first < 0xC0
    → contains lengths (length params) ≡ true
    → expect_params (first ∷ second ∷ params) (first * 256 + second) lengths ≡ ok params
unfolding parse_access opcode_size from_big
expects first second params lengths h k c =
    (expect_params_lem (first ∷ second ∷ params) (first * 256 + second) lengths params
        (ground arith)).0
      c

abbrev Words : ℕ → ℕ → ℕ → ℕ → Type 0
Words a b c d = (a < 2 ^ 16) × (b < 2 ^ 16) × (c < 2 ^ 16) × (d < 2 ^ 16)

-- A Light CTL Status is read back field by field, in its form of four octets and in its form of
-- nine, which has the targets and the remaining time.
pub parse_light_ctl_status_lem :
    (l t target_l target_t remaining : ℕ)
    → Words l t target_l target_t
    → (parse_light_ctl_status (be 2 op_light_ctl_status ++ (le 2 l ++ le 2 t))
        ≡ ok (record {
          present_lightness = l;
          present_temperature = t;
          target_lightness = none;
          target_temperature = none;
          remaining_time = none;
        }))
      × (parse_light_ctl_status (
            be 2 op_light_ctl_status
            ++ (le 2 l ++ (le 2 t ++ (le 2 target_l ++ (le 2 target_t ++ (remaining ∷ []))))))
          ≡ ok (record {
            present_lightness = l;
            present_temperature = t;
            target_lightness = some target_l;
            target_temperature = some target_t;
            remaining_time = some remaining;
          }))
unfolding parse_light_ctl_status be le from_little contains
parse_light_ctl_status_lem l t target_l target_t remaining (p, q, r, s) = (
  rw
      (
        expects 0x82 0x60 (le 2 l ++ le 2 t) (4 ∷ 9 ∷ []) (ground arith) (ground arith) refl,
        word_back l p,
        word_back t q,
      )
      refl,
  rw
      (
        expects 0x82 0x60
            (le 2 l ++ (le 2 t ++ (le 2 target_l ++ (le 2 target_t ++ (remaining ∷ [])))))
            (4 ∷ 9 ∷ []) (ground arith) (ground arith) refl,
        word_back l p,
        word_back t q,
        word_back target_l r,
        word_back target_t s,
      )
      refl,
)

-- A Light CTL Temperature Status is read back field by field, in its form of four octets and in its
-- form of nine, which has the targets and the remaining time; its Delta UV values have a sign.
pub parse_light_ctl_temperature_status_lem :
    (t target_t remaining : ℕ) (uv target_uv : Signed)
    → t < 2 ^ 16
    → target_t < 2 ^ 16
    → IsInt16 uv
    → IsInt16 target_uv
    → (parse_light_ctl_temperature_status
          (be 2 op_light_ctl_temperature_status ++ (le 2 t ++ le_signed uv))
        ≡ ok (record {
          present_temperature = t;
          present_delta_uv = uv;
          target_temperature = none;
          target_delta_uv = none;
          remaining_time = none;
        }))
      × (parse_light_ctl_temperature_status (
            be 2 op_light_ctl_temperature_status
            ++ (le 2 t
                ++ (le_signed uv ++ (le 2 target_t ++ (le_signed target_uv ++ (remaining ∷ []))))))
          ≡ ok (record {
            present_temperature = t;
            present_delta_uv = uv;
            target_temperature = some target_t;
            target_delta_uv = some target_uv;
            remaining_time = some remaining;
          }))
unfolding parse_light_ctl_temperature_status be le from_little contains
parse_light_ctl_temperature_status_lem t target_t remaining uv target_uv p q r s =
    let (a, b, e) = le_signed_octets uv in
    let (a', b', e') = le_signed_octets target_uv in
    let read : signed_word (a + 256 * (b + 256 * 0)) ≡ uv =
      ap (λ (o : Bytes). signed_word (from_little o)) (sym e) ∙ signed_word-le_signed uv r in
    let read' : signed_word (a' + 256 * (b' + 256 * 0)) ≡ target_uv =
      ap (λ (o : Bytes). signed_word (from_little o)) (sym e')
      ∙ signed_word-le_signed target_uv s in
    rw (e, e')
      (
        rw
            (
              expects 0x82 0x66 (le 2 t ++ (a ∷ b ∷ [])) (4 ∷ 9 ∷ []) (ground arith) (ground arith)
                  refl,
              word_back t p,
              read,
            )
            refl,
        rw
            (
              expects 0x82 0x66
                  (le 2 t
                    ++ ((a ∷ b ∷ []) ++ (le 2 target_t ++ ((a' ∷ b' ∷ []) ++ (remaining ∷ [])))))
                  (4 ∷ 9 ∷ []) (ground arith) (ground arith) refl,
              word_back t p,
              word_back target_t q,
              read,
              read',
            )
            refl,
      )

-- A Config Model App Status is read back with its model: a SIG model of one word, or a vendor
-- model, the company before the model.
pub parse_config_model_app_status_lem :
    (status element_addr appkey_idx company model : ℕ)
    → Words element_addr appkey_idx company model
    → (parse_config_model_app_status (
          be 2 op_config_model_app_status
          ++ (status ∷ le 2 element_addr ++ (le 2 appkey_idx ++ le 2 model)))
        ≡ ok (record {
          status = status;
          element_addr = element_addr;
          appkey_idx = appkey_idx;
          model_id = model;
          company_id = none;
        }))
      × (parse_config_model_app_status (
            be 2 op_config_model_app_status
            ++ (status ∷ le 2 element_addr ++ (le 2 appkey_idx ++ (le 2 company ++ le 2 model))))
          ≡ ok (record {
            status = status;
            element_addr = element_addr;
            appkey_idx = appkey_idx;
            model_id = model;
            company_id = some company;
          }))
unfolding parse_config_model_app_status be le from_little contains
parse_config_model_app_status_lem status element_addr appkey_idx company model (p, q, r, s) = (
  rw
      (
        expects 0x80 0x3E (status ∷ le 2 element_addr ++ (le 2 appkey_idx ++ le 2 model))
            (7 ∷ 9 ∷ []) (ground arith) (ground arith) refl,
        word_back element_addr p,
        word_back appkey_idx q,
        word_back model s,
      )
      refl,
  rw
      (
        expects 0x80 0x3E
            (status ∷ le 2 element_addr ++ (le 2 appkey_idx ++ (le 2 company ++ le 2 model)))
            (7 ∷ 9 ∷ []) (ground arith) (ground arith) refl,
        word_back element_addr p,
        word_back appkey_idx q,
        word_back company r,
        word_back model s,
      )
      refl,
)
