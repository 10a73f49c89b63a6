-- ===== src/Auth/Sessions.antt =====
-- login_user, refresh_access_token and logout_user. The refresh token that each draws at random is an
-- argument.
use rubric_grading_engine.Prelude.{
  ◌||◌, ℕ, ◌*◌, String, Bool, not, Option, none, some, [], ◌∷◌, ◌++◌, if◌then◌else◌,
}
use rubric_grading_engine.Prelude.Results.{unauthorized, refresh_token_invalid, ok, err}
use rubric_grading_engine.Prelude.Tables.{get, put}
use rubric_grading_engine.Auth.{
  User, FailureReason, email_not_found, email_not_verified, invalid_password, AuthAction,
  login_failure, login_success, token_refreshed, logout, AuthAudit, Redis, Externals, Settings,
  World, Outcome, store_refresh_token, consume_refresh_token, delete_refresh_token,
  create_access_token,
}
use rubric_grading_engine.Auth.Accounts.{user_by_email, user_row}

-- The user, the access token and the refresh token.
abbrev pub Session : Type 0
Session = User × String × String

abbrev pub user_audit : Option ℕ → Option ℕ → AuthAction → Option String → AuthAudit
user_audit teacher_id entity_id action ip = record {
  teacher_id = teacher_id;
  entity_id = entity_id;
  action = action;
  ip_address = ip;
}

module _ {Store : Type 0} (redis : Redis Store) (py : Externals) (settings : Settings) where
  abbrev pub log_entry : AuthAudit → World Store → World Store
  log_entry entry w = record w { audit_logs = w.audit_logs ++ (entry ∷ []) }

  -- A refused login: the entry with its reason, committed, then the error.
  unfoldable pub refuse_login :
      Option ℕ → FailureReason → Option String → World Store → Outcome Store Session
  refuse_login entity_id reason ip w =
      (log_entry (user_audit none entity_id (login_failure reason) ip) w, err unauthorized)

  abbrev pub may_sign_in : User → Bool
  may_sign_in user = user.email_verified || settings.allow_unverified_login_in_test

  -- The token pair, and the refresh token stored for its lifetime.
  unfoldable pub issue_tokens : ℕ → String → User → World Store → Outcome Store Session
  issue_tokens now token user w =
      let lifetime = settings.refresh_token_expire_days * 86400 in
      (
        record w { redis = store_refresh_token redis py token user.id lifetime w.redis },
        ok (user, create_access_token py settings now user.id user.email, token),
      )

  unfoldable pub accept_login :
      ℕ → String → User → Option String → World Store → Outcome Store Session
  accept_login now token user ip w =
      let seen : User = record user { last_login_at = some now } in
      let entry = user_audit (some user.id) (some user.id) login_success ip in
      issue_tokens now token seen (log_entry entry (record w { users = put seen w.users }))

  unfoldable pub login_user :
      ℕ → String → String → String → Option String → World Store → Outcome Store Session
  login_user now token email password ip w = elim (user_by_email (py.lower email) w.users) [
    | none ↦ refuse_login none email_not_found ip w
    | some user ↦
        if not (may_sign_in user)
        then refuse_login (some user.id) email_not_verified ip w
        else (if not (py.checkpw password user.hashed_password)
            then refuse_login (some user.id) invalid_password ip w
            else accept_login now token user ip w)
  ]

  unfoldable pub refresh_access_token :
      ℕ → String → String → Option String → World Store → Outcome Store Session
  refresh_access_token now token old_token ip w =
      let (s, consumed) = consume_refresh_token redis py old_token w.redis in
      let w' : World Store = record w { redis = s } in
      elim consumed [
        | none ↦ (w', err refresh_token_invalid)
        | some user_id ↦ elim (get user_id w'.users) [
          | none ↦ (w', err refresh_token_invalid)
          | some user ↦
              if not (may_sign_in user)
              then (w', err refresh_token_invalid)
              else issue_tokens now token user
                  (log_entry (user_audit (some user.id) (some user.id) token_refreshed ip) w')
        ]
      ]

  unfoldable pub logout_user : String → ℕ → Option String → World Store → World Store
  logout_user token teacher_id ip w =
      log_entry (user_audit (some teacher_id) (some teacher_id) logout ip)
        (record w { redis = delete_refresh_token redis token w.redis })
