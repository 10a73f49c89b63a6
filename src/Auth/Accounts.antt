-- ===== src/Auth/Accounts.antt =====
-- create_user, verify_email and resend_verification.
use Prim.Native.Char.{code}
use rubric_grading_engine.Prelude.{
  ℕ, ◌+◌, String, true, false, Option, none, some, List, [], ◌∷◌, ◌++◌, ◌==◌, if◌then◌else◌, find,
}
use rubric_grading_engine.Prelude.Results.{conflict, validation_error, Result, ok, err}
use rubric_grading_engine.Prelude.Tables.{Row, get, put}
use text.Mathlib.Text.{◌==◌ as str_eq}
use rubric_grading_engine.Auth.{
  teacher, User, teacher_account_created, AuthAudit, signup_rate_limit, resend_rate_limit, Redis,
  Externals, Settings, World, Outcome, signup_max, resend_max, rate_limit_window, trial_duration,
  check_rate_limit, consume_verification_token,
}

instance abbrev pub user_row : Row User
user_row = record { key = λ x. x.id }

-- SELECT … WHERE email = …; the column is unique.
unfoldable pub user_by_email : String → List User → Option User
user_by_email email users = find (λ x. str_eq x.email email) users

-- `email.split("@")[-1]`: what follows the last "@", which is character 64.
abbrev pub after_at : String → String → String
after_at part String.[] = part
after_at part (String.◌∷◌ c s) =
    let skip = after_at part s in let cut = after_at s s in if code c == 64 then cut else skip

abbrev pub email_domain : String → String
email_domain email = after_at email email

-- The form's fields.
pub record SignUp : Type 0 where
  pub email : String
  pub password : String
  pub first_name : String
  pub last_name : String
  pub school_name : String

unfoldable pub new_user : Externals → ℕ → SignUp → User
new_user py id form = record {
  id = id;
  email = py.lower form.email;
  hashed_password = py.hashpw form.password;
  first_name = form.first_name;
  last_name = form.last_name;
  school_name = form.school_name;
  role = teacher;
  email_verified = false;
  onboarding_complete = false;
  trial_ends_at = none;
  last_login_at = none;
}

abbrev pub signup_audit : SignUp → User → Option String → AuthAudit
signup_audit form user ip = record {
  teacher_id = none;
  entity_id = some user.id;
  action = teacher_account_created (email_domain form.email);
  ip_address = ip;
}

module _ {Store : Type 0} (redis : Redis Store) (py : Externals) (settings : Settings) where
  -- `if submitter_ip:`, which an empty text does not pass.
  unfoldable pub limit_signups : Option String → Store → Store × Result (Unit {0})
  limit_signups none s = (s, ok tt)
  limit_signups (some String.[]) s = (s, ok tt)
  limit_signups (some (String.◌∷◌ c rest)) s =
      check_rate_limit redis settings (signup_rate_limit (String.◌∷◌ c rest)) signup_max
        rate_limit_window s

  -- The insertion, the audit entry and the commit. The rows that other requests commit between the
  -- check of the address and the insertion come first; the unique constraint sees them.
  unfoldable pub insert_user :
      ℕ → SignUp → Option String → List User → World Store → Outcome Store User
  insert_user id form ip meanwhile w =
      let users = w.users ++ meanwhile in
      let user = new_user py id form in
      elim (user_by_email user.email users) [
        | some _ ↦ (record w { users = users }, err conflict)
        | none ↦ (
          record w {
            users = users ++ (user ∷ []);
            audit_logs = w.audit_logs ++ (signup_audit form user ip ∷ []);
          },
          ok user,
        )
      ]

  unfoldable pub create_user :
      ℕ → SignUp → Option String → List User → World Store → Outcome Store User
  create_user id form ip meanwhile w =
      let (s, limited) = limit_signups ip w.redis in
      let w' : World Store = record w { redis = s } in
      elim limited [
        | err raised ↦ (w', err raised)
        | ok _ ↦ elim (user_by_email (py.lower form.email) w'.users) [
          | some _ ↦ (w', err conflict)
          | none ↦ insert_user id form ip meanwhile w'
        ]
      ]

  -- The writes of a first verification, and of a repeated one on a row without a trial.
  unfoldable pub mark_verified : ℕ → User → User
  mark_verified now user =
      let trial : Option ℕ = some (now + trial_duration) in
      elim user.email_verified [
        | true ↦ elim user.trial_ends_at [
          | none ↦ record user { trial_ends_at = trial }
          | some _ ↦ user
        ]
        | false ↦ record user { email_verified = true; trial_ends_at = trial }
      ]

  unfoldable pub verify_email : ℕ → String → World Store → Outcome Store User
  verify_email now raw_token w =
      let (s, consumed) =
        consume_verification_token redis py settings.email_verification_hmac_secret raw_token
          w.redis in
      let w' : World Store = record w { redis = s } in
      elim consumed [
        | none ↦ (w', err (validation_error "token"))
        | some user_id ↦ elim (get user_id w'.users) [
          | none ↦ (w', err (validation_error "token"))
          | some user ↦
              let verified = mark_verified now user in
              (record w' { users = put verified w'.users }, ok verified)
        ]
      ]

  unfoldable pub resend_verification : String → World Store → Outcome Store (Option User)
  resend_verification email w =
      let (s, limited) =
        check_rate_limit redis settings (resend_rate_limit (py.sha256 (py.lower email))) resend_max
          rate_limit_window w.redis in
      let w' : World Store = record w { redis = s } in
      elim limited [
        | err raised ↦ (w', err raised)
        | ok _ ↦ elim (user_by_email (py.lower email) w'.users) [
          | none ↦ (w', ok none)
          | some user ↦ (w', ok (if user.email_verified then none else some user))
        ]
      ]
