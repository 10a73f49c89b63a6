-- ===== src/Auth/Events.antt =====
-- Runs of calls: the events, and the states that they leave.
use rubric_grading_engine.Prelude.{ℕ, String, ◌≡◌, ◌≢◌, Option, List, [], ◌∷◌}
use rubric_grading_engine.Auth.{User, Redis, Externals, Settings, World, store_verification_token}
use rubric_grading_engine.Auth.Accounts.{SignUp, create_user, verify_email, resend_verification}
use rubric_grading_engine.Auth.Sessions.{login_user, refresh_access_token, logout_user}

-- The calls of the service, the storing of a verification token by its sender, and the passing of time.
pub data Event : Type 0 where
  signup : ℕ → SignUp → Option String → List User → Event
  send_verification : String → ℕ → ℕ → Event
  verify : ℕ → String → Event
  resend : String → Event
  login : ℕ → String → String → String → Option String → Event
  refresh : ℕ → String → String → Option String → Event
  log_out : String → ℕ → Option String → Event
  wait : ℕ → Event

-- The event does not draw the refresh token.
abbrev pub IsUndrawn : String → Event → Type 0
IsUndrawn old (login now token email password ip) = token ≢ old
IsUndrawn old (refresh now token old_token ip) = token ≢ old
IsUndrawn old _ = Unit

-- The event is given the refresh token, to take it out.
abbrev pub IsSpent : String → Event → Type 0
IsSpent old (refresh now token old_token ip) = old_token ≡ old
IsSpent old (log_out token teacher_id ip) = token ≡ old
IsSpent old _ = ⊥

module _ {Store : Type 0} (redis : Redis Store) (py : Externals) (settings : Settings) where
  -- The state that an event leaves, whether it returned or raised.
  unfoldable pub step : World Store → Event → World Store
  step w (signup id form ip meanwhile) = (create_user redis py settings id form ip meanwhile w).0
  step w (send_verification tag user_id ttl) = record w {
    redis = store_verification_token redis py tag user_id ttl w.redis;
  }
  step w (verify now raw) = (verify_email redis py settings now raw w).0
  step w (resend email) = (resend_verification redis py settings email w).0
  step w (login now token email password ip) =
      (login_user redis py settings now token email password ip w).0
  step w (refresh now token old_token ip) =
      (refresh_access_token redis py settings now token old_token ip w).0
  step w (log_out token teacher_id ip) = logout_user redis py settings token teacher_id ip w
  step w (wait n) = record w { redis = redis.elapse n w.redis }

  unfoldable pub run : World Store → List Event → World Store
  run w [] = w
  run w (e ∷ es) = run (step w e) es
