-- ===== src/Examples/Accounts.antt =====
-- The theorems on accounts and their sessions, for one teacher with a refresh token.
use rubric_grading_engine.Prelude.{
  ℕ, ◌-◌, String, ◌≡◌, refl, ◌≢◌, ◌↔◌, ◌⊎◌, true, false, Option, none, some, List, [], ◌∷◌, ◌++◌,
  arith, ◌==◌, if◌then◌else◌,
}
use rubric_grading_engine.Prelude.Results.{
  Error, conflict, unauthorized, refresh_token_invalid, ok, err,
}
use rubric_grading_engine.Prelude.Texts.{str_eq, str_eq_iff}
use rubric_grading_engine.Auth.{
  teacher, User, FailureReason, login_failure, RedisKey, signup_rate_limit, refresh_token,
  Externals, Settings, World, check_rate_limit, rate_limit_window, signup_max,
  generate_verification_token, store_verification_token, consume_verification_token,
}
use rubric_grading_engine.Auth.Accounts.{
  SignUp, user_row, create_user, new_user, limit_signups, user_by_email, insert_user,
}
use rubric_grading_engine.Auth.Sessions.{Session, user_audit, login_user, refresh_access_token}
use rubric_grading_engine.Auth.Tokens.{
  without, Refreshed, store-consume_verification_token, refresh-Refreshed,
}
use rubric_grading_engine.Auth.Logins.{IsAccepted, login_iff}
use rubric_grading_engine.Auth.Limits.{Call, same, other, min, calls, passed, passed-min}
use rubric_grading_engine.Auth.Runs.{refresh_single_use}
use rubric_grading_engine.Auth.Events.{refresh, log_out, wait, run}
use rubric_grading_engine.Auth.Registration.{create-user_once}
use rubric_grading_engine.Examples.Cache.{Cache, cache, key_eq}

abbrev py : Externals
py = record {
  lower = λ s. if str_eq s "BOB@example.org" then "bob@example.org" else s;
  sha256 = λ s. s;
  hmac_sha256 = λ secret s. s;
  hashpw = λ s. s;
  checkpw = str_eq;
  uuid_str = λ n. if n == 7 then "7" else "";
  uuid = λ s. if str_eq s "7" then some 7 else none;
  jwt_encode = λ claims. claims.sub;
}

abbrev settings : Settings
settings = record {
  rate_limit_enabled = true;
  email_verification_hmac_secret = "secret";
  allow_unverified_login_in_test = false;
  refresh_token_expire_days = 30;
  short_lived_token_ttl_seconds = none;
  access_token_expire_minutes = 15;
}

abbrev ada : User
ada = record {
  id = 7;
  email = "ada@example.org";
  hashed_password = "password";
  first_name = "Ada";
  last_name = "Byron";
  school_name = "School";
  role = teacher;
  email_verified = true;
  onboarding_complete = false;
  trial_ends_at = none;
  last_login_at = none;
}

abbrev empty : Cache
empty = record { clock = 0; value = λ _. none; counter = λ _. 0; due = λ _. none }

abbrev world : World Cache
world = record {
  users = ada ∷ [];
  audit_logs = [];
  redis = cache.set (refresh_token "a") "7" 2592000 empty;
}

abbrev b_token : String
b_token = "b"

not_b : b_token ≢ "a"
not_b h = let e = (str_eq_iff "b" "a").1 h in cc

store-consume_verification_token_example :
    let (raw_token, hmac_tag) = generate_verification_token py "secret" "t" in
    let stored = store_verification_token cache py hmac_tag 7 86400 empty in
    let (s1, first) = consume_verification_token cache py "secret" raw_token stored in
    let (s2, second) = consume_verification_token cache py "secret" raw_token s1 in
    (first ≡ some 7) × (second ≡ none)
store-consume_verification_token_example =
    store-consume_verification_token cache py settings "t" 7 86400 empty (omega arith) refl

refresh-Refreshed_example :
    (refresh_access_token cache py settings 10 "b" "a" none world
      ≡ (without cache py settings "a" world, err refresh_token_invalid))
    ⊎ ((w' : World Cache) × (session : Session) × (refresh_access_token cache py settings 10 "b" "a"
            none world
          ≡ (w', ok session))
        × Refreshed cache py settings "b" "a" world w' session)
refresh-Refreshed_example = refresh-Refreshed cache py settings 10 "b" "a" none world (omega arith)

refresh_single_use_example :
    (refresh_access_token cache py settings 20 "c" "a" none
      (run cache py settings world (refresh 10 "b" "a" none ∷ wait 5 ∷ log_out "b" 7 none ∷ []))).1
    ≡ err refresh_token_invalid
refresh_single_use_example =
    refresh_single_use cache py settings "a" (refresh 10 "b" "a" none)
      (wait 5 ∷ log_out "b" 7 none ∷ []) world refl (not_b, (tt, (tt, tt))) 20 "c" none

login_iff_example :
    let (w', r) = login_user cache py settings 10 "b" "ada@example.org" "wrong" none world in
    (((session : Session) × (r ≡ ok session))
      ↔ ((user : User) × IsAccepted cache py settings "ada@example.org" "wrong" world user))
    × (((session : Session) × (r ≡ ok session))
        ⊎ ((entity_id : Option ℕ) × (reason : FailureReason) × (r ≡ err unauthorized)
            × (w'.audit_logs
                ≡ world.audit_logs ++ (user_audit none entity_id (login_failure reason) none ∷ []))
            × (w'.users ≡ world.users)
            × (w'.redis ≡ world.redis)))
login_iff_example = login_iff cache py settings 10 "b" "ada@example.org" "wrong" none world

abbrev key : RedisKey
key = signup_rate_limit "10.0.0.1"

abbrev seven_calls : List Call
seven_calls = same ∷ same ∷ other (refresh_token "a") ∷ same ∷ same ∷ same ∷ same ∷ same ∷ []

passed-min_example :
    passed cache settings signup_max rate_limit_window key seven_calls empty
    ≡ min (calls seven_calls) (signup_max - cache.count key empty)
passed-min_example =
    passed-min cache settings signup_max rate_limit_window refl (omega arith) key seven_calls empty
      (λ e. cc, tt)

abbrev form : SignUp
form = record {
  email = "bob@example.org";
  password = "password";
  first_name = "Bob";
  last_name = "Hall";
  school_name = "School";
}

abbrev joined : World Cache
joined = (create_user cache py settings 8 form (some "10.0.0.1") [] world).0

abbrev bob : User
bob = new_user py 8 form

creating : create_user cache py settings 8 form (some "10.0.0.1") [] world ≡ (joined, ok bob)
unfolding create_user limit_signups check_rate_limit key_eq user_by_email insert_user new_user
creating = refl

-- The same address in another spelling.
abbrev same_form : SignUp
same_form = record form { email = "BOB@example.org"; password = "other" }

create-user_once_example :
    (let (again, r) = create_user cache py settings 9 same_form none [] joined in
      (again.users ≡ joined.users)
      × ((r ≡ err conflict)
          ⊎ ((raised : Error) × ((limit_signups cache py settings none joined.redis).1 ≡ err raised)
              × (r ≡ err raised))))
    × ((login_user cache py settings 10 "b" same_form.email "password" none joined).1
        ≡ err unauthorized)
create-user_once_example =
    create-user_once cache py settings 8 form (some "10.0.0.1") [] world joined bob 9 same_form none
      [] 10 "b" "password" creating refl refl
