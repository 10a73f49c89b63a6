-- ===== src/Prelude/Results.antt =====
-- Domain exceptions (backend/app/exceptions.py) as values, and the chain of steps that may raise.
use mathlib.Core.Path.{◌≡◌, refl}
use mathlib.Core.Logic.{◌⊎◌, inl, inr}
use mathlib.Core.Bool.{Bool, true, false}
use mathlib.Core.Option.{Option, none, some}
use Prim.Native.String.{String}

-- One constructor for each exception class that the modelled services raise. A validation error
-- keeps the name of its field; messages are left out. An outage is an error of Redis or the broker,
-- a CSV error the csv module's own.
pub data Error : Type 0 where
  not_found forbidden conflict grade_locked grading_in_progress not_gradeable : Error
  rubric_in_use rubric_weight_invalid invalid_transition : Error
  regrade_window_closed regrade_limit_reached : Error
  llm_error llm_parse_error overflow_error value_error outage : Error
  rate_limited unauthorized refresh_token_invalid csv_error : Error
  validation_error : String → Error

pub data Result {ℓ} (T : Type ℓ) : Type ℓ where
  err : Error → Result T
  ok : T → Result T

-- `if test: raise error`
abbrev pub raise_if : Bool → Error → Result (Unit {0})
raise_if false raised = ok tt
raise_if true raised = err raised

-- `if row is None: raise error`
abbrev pub or_raise {ℓ} : {Found : Type ℓ} → Option Found → Error → Result Found
or_raise (some row) raised = ok row
or_raise none raised = err raised

module _ {ℓ κ} {T : Type ℓ} {V : Type κ} where
  infixl 5 ◌>>=◌
  -- The steps after a step that returned.
  abbrev pub ◌>>=◌ : Result T → (T → Result V) → Result V
  err raised >>= rest = err raised
  ok value >>= rest = rest value

  -- A chain that returns: its first step did, and the others on that step's value.
  pub >>=-eq-ok :
      (first : Result T) (rest : T → Result V) {end : V}
      → (first >>= rest) ≡ ok end
      → (value : T) × (first ≡ ok value) × (rest value ≡ ok end)
  >>=-eq-ok (err raised) rest h = cc
  >>=-eq-ok (ok value) rest h = (value, refl, h)

infixl 5 ◌>>◌
abbrev pub ◌>>◌ {ℓ} : {T : Type ℓ} → Result (Unit {0}) → Result T → Result T
check >> rest = check >>= λ _. rest

-- To split on how a call ended.
pub Result-cases {ℓ} :
    {A : Type ℓ} (r : Result A) → ((a : A) × (r ≡ ok a)) ⊎ ((e : Error) × (r ≡ err e))
Result-cases (ok a) = inl (a, refl)
Result-cases (err e) = inr (e, refl)

-- A returned pair, taken apart.
pub ok-pair_injective {ℓ κ} :
    {A : Type ℓ} {B : Type κ} (a a' : A) (b b' : B)
    → ◌≡◌ {A = Result (A × B)} (ok (a, b)) (ok (a', b'))
    → (a' ≡ a) × (b' ≡ b)
ok-pair_injective a a' b b' h = (cc, cc)
