-- ===== src/Prelude/Outcome.antt =====
-- errors.py and the exceptions of Python that the code can raise. The messages are left out.
use mathlib.Core.Path.{◌≡◌, refl}
use mathlib.Core.Bool.{Bool, true, false}
use mathlib.Core.Option.{Option, none, some}

-- One constructor for each exception class: the subclasses of `BtMeshError`, then Python's own.
pub data Error : Type 0 where
  access_error network_error transport_error proxy_pdu_error proxy_config_error : Error
  beacon_error provisioning_pdu_error provisioning_error node_error : Error
  overflow_error value_error key_error index_error bearer_error provisioning_failed timeout_error
        network_model_error :
      Error

-- The classes of Python's own, which `except BtMeshError` lets through, and the others.
abbrev pub is_bt_mesh_error : Error → Bool
is_bt_mesh_error overflow_error = false
is_bt_mesh_error value_error = false
is_bt_mesh_error key_error = false
is_bt_mesh_error index_error = false
is_bt_mesh_error timeout_error = false
is_bt_mesh_error e = true

pub data Result {ℓ} (A : Type ℓ) : Type ℓ where
  ok : A → Result A
  err : Error → Result A

module _ {ℓ κ} {A : Type ℓ} {B : Type κ} where
  infixl 5 ◌>>=◌
  -- What comes next sees the value; an exception skips it.
  abbrev pub ◌>>=◌ : Result A → (A → Result B) → Result B
  err e >>= next = err e
  ok a >>= next = next a

  -- The value that a chain went through, where it came to an end.
  pub >>=-eq-ok :
      (first : Result A) (next : A → Result B) {result : B}
      → (first >>= next) ≡ ok result
      → (a : A) × (first ≡ ok a) × (next a ≡ ok result)
  >>=-eq-ok (err e) next h = cc
  >>=-eq-ok (ok a) next h = (a, refl, h)

infixl 5 ◌>>◌
-- A check, and what follows it.
abbrev pub ◌>>◌ {ℓ} : {B : Type ℓ} → Result (Unit {0}) → Result B → Result B
check >> rest = check >>= λ _. rest

-- `if not b: raise e`
abbrev pub require : Bool → Error → Result (Unit {0})
require true e = ok tt
require false e = err e

-- `none` is an exception that the caller turns into `e`.
abbrev pub from_option {ℓ} : {A : Type ℓ} → Error → Option A → Result A
from_option e none = err e
from_option e (some a) = ok a

pub require-ok {ℓ} :
    {B : Type ℓ} (b : Bool) (e : Error) (k : Result B) {x : B}
    → (require b e >> k) ≡ ok x
    → (b ≡ true) × (k ≡ ok x)
require-ok true e k h = (refl, h)
require-ok false e k h = cc

pub from_option-ok {ℓ} :
    {A : Type ℓ} (e : Error) (o : Option A) {a : A} → from_option e o ≡ ok a → o ≡ some a
from_option-ok e none h = cc
from_option-ok e (some b) h = cc
