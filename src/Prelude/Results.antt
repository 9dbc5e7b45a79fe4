-- ===== src/Prelude/Results.antt =====
-- The exceptions that the sources throw, as values: a runtime_error with its message.
use mathlib.Core.Path.{◌≡◌, refl}
use mathlib.Core.Logic.{◌⊎◌, inl, inr}
use pow_server.Prelude.Texts.{Text, codes}

-- One constructor for each message of the sources; `library` for an exception out of a library.
pub data Error : Type 0 where
  invalid_input_format invalid_input_size : Error
  no_work_device missing_hash missing_work cancel_missing_hash : Error
  request_limit hash_not_found invalid_action no_jobs no_available_devices : Error
  control_not_allowed invalid_device_type device_not_table : Error
  library : Text → Error

-- ex.what ()
unfoldable pub what : Error → Text
what invalid_input_format = codes "from_hex failed: invalid input format"
what invalid_input_size = codes "from_hex failed: invalid input size"
what no_work_device = codes "No work device has been configured"
what missing_hash = codes "work_generate failed: missing hash value"
what missing_work = codes "work_generate failed: missing work value"
what cancel_missing_hash = codes "work_cancel failed: missing hash value"
what request_limit = codes "Work request limit exceeded"
what hash_not_found = codes "Hash not found in work queue"
what invalid_action = codes "Invalid action field"
what no_jobs = codes "No jobs available"
what no_available_devices = codes "No available devices"
what control_not_allowed =
    codes "Control requests are not allowed. This must be enabled in the server configuration."
what invalid_device_type = codes "config: invalid device type (must be \"cpu\" or \"gpu\")"
what device_not_table = codes "device must be a table or table array"
what (library m) = m

pub data Result {ℓ} (A : Type ℓ) : Type ℓ where
  ok : A → Result A
  err : Error → Result A

-- A throw ends the chain: what follows is not run.
infixl 5 ◌>>=◌
abbrev pub ◌>>=◌ {ℓ κ} : {A : Type ℓ} {B : Type κ} → Result A → (A → Result B) → Result B
err thrown >>= next = err thrown
ok value >>= next = next value

-- To split on a computed result and keep the equation.
pub Result-cases {ℓ} :
    {A : Type ℓ} (m : Result A) → ((a : A) × (m ≡ ok a)) ⊎ ((e : Error) × (m ≡ err e))
Result-cases (ok a) = inl (a, refl)
Result-cases (err e) = inr (e, refl)

-- The value of a result that came out well, and its error otherwise.
pub >>=-eq-ok {ℓ κ} :
    {A : Type ℓ} {B : Type κ} (first : Result A) (next : A → Result B) {out : B}
    → (first >>= next) ≡ ok out
    → (value : A) × (first ≡ ok value) × (next value ≡ ok out)
>>=-eq-ok (err thrown) next h = cc
>>=-eq-ok (ok value) next h = (value, refl, h)

-- The error of a chain is the first one's, or that of what follows it.
pub >>=-eq-err {ℓ κ} :
    {A : Type ℓ} {B : Type κ} (first : Result A) (next : A → Result B) {e : Error}
    → (first >>= next) ≡ err e
    → (first ≡ err e) ⊎ ((value : A) × (first ≡ ok value) × (next value ≡ err e))
>>=-eq-err (err thrown) next h = inl cc
>>=-eq-err (ok value) next h = inr (value, refl, h)

pub ok_eq {ℓ} : {A : Type ℓ} {a b : A} → ok a ≡ ok b → a ≡ b
ok_eq e = cc
