-- ===== src/Auth/Runs.antt =====
-- Runs of any number of calls: a spent refresh token stays spent.
use rubric_grading_engine.Prelude.{
  ℕ, ◌*◌, String, ◌≡◌, refl, sym, ◌∙◌, ◌≢◌, inl, inr, Option, none, some, List, [], ◌∷◌, arith,
  ◌==◌, Bool-cases, Option-cases, All,
}
use rubric_grading_engine.Prelude.Results.{refresh_token_invalid, err}
use rubric_grading_engine.Auth.{
  User, RedisKey, signup_rate_limit, resend_rate_limit, verify_token, refresh_token, Redis,
  Externals, Settings, World, check_rate_limit, getdel, consume_verification_token,
  store_verification_token, store_refresh_token, delete_refresh_token, signup_max, resend_max,
  rate_limit_window,
}
use rubric_grading_engine.Auth.Accounts.{
  SignUp, limit_signups, insert_user, create_user, verify_email, resend_verification,
}
use rubric_grading_engine.Auth.Sessions.{
  refuse_login, issue_tokens, accept_login, refresh_access_token, logout_user,
}
use rubric_grading_engine.Auth.Tokens.{refresh_token_injective, holds, refresh-cases}
use rubric_grading_engine.Auth.Logins.{login-cases}
use rubric_grading_engine.Auth.Events.{
  Event, signup, send_verification, verify, resend, login, refresh, log_out, wait, IsUndrawn,
  IsSpent, step, run,
}

module _ {Store : Type 0} (redis : Redis Store) (py : Externals) (settings : Settings) where
  -- What Redis does to a key that it does not have.
  module _ (old : String) (s : Store) (gone : redis.read (refresh_token old) s ≡ none) where
    none_expire :
        (k : RedisKey) (ttl : ℕ) → redis.read (refresh_token old) (redis.expire k ttl s) ≡ none
    none_expire k ttl =
        elim (Option-cases (redis.read (refresh_token old) (redis.expire k ttl s))) [
          | inl none_ ↦ none_
          | inr (v, held) ↦
              let before = redis.read_expire (refresh_token old) k ttl s v held in absurd cc
        ]

    none_elapse : (n : ℕ) → redis.read (refresh_token old) (redis.elapse n s) ≡ none
    none_elapse n = elim (Option-cases (redis.read (refresh_token old) (redis.elapse n s))) [
      | inl none_ ↦ none_
      | inr (v, held) ↦ let before = redis.read_elapse (refresh_token old) n s v held in absurd cc
    ]

    none_set :
        (k : RedisKey) (v : String) (ttl : ℕ)
        → refresh_token old ≢ k
        → redis.read (refresh_token old) (redis.set k v ttl s) ≡ none
    none_set k v ttl other = redis.read_set_other (refresh_token old) k v ttl s other ∙ gone

    none_set_refresh :
        (token v : String) (ttl : ℕ)
        → token ≢ old
        → redis.read (refresh_token old) (redis.set (refresh_token token) v ttl s) ≡ none
    none_set_refresh token v ttl other =
        none_set (refresh_token token) v ttl
          (λ same. other (sym (refresh_token_injective old token same)))

    none_delete : (k : RedisKey) → redis.read (refresh_token old) (redis.delete k s) ≡ none
    none_delete k = elim (Option-cases (redis.read (refresh_token old) (redis.delete k s))) [
      | inl none_ ↦ none_
      | inr (v, held) ↦
          let before = redis.read_delete_any (refresh_token old) k s v held in absurd cc
    ]

    none_incr :
        (k : RedisKey)
        → refresh_token old ≢ k
        → redis.read (refresh_token old) (redis.incr k s) ≡ none
    none_incr k other = redis.read_incr_other (refresh_token old) k s other ∙ gone

  none_check :
      (old : String) (k : RedisKey) (most window : ℕ) (s : Store)
      → refresh_token old ≢ k
      → redis.read (refresh_token old) s ≡ none
      → redis.read (refresh_token old) (check_rate_limit redis settings k most window s).0 ≡ none
  unfolding check_rate_limit
  none_check old k most window s other gone =
      let incremented = none_incr old s gone k other in
      elim (Bool-cases settings.rate_limit_enabled) [
        | inr disabled ↦ rw disabled gone
        | inl enabled ↦ elim (Bool-cases (redis.count k (redis.incr k s) == 1)) [
          | inl first ↦ rw (enabled, first) (none_expire old (redis.incr k s) incremented k window)
          | inr later ↦ rw (enabled, later) incremented
        ]
      ]

  none_signups :
      (old : String) (ip : Option String) (s : Store)
      → redis.read (refresh_token old) s ≡ none
      → redis.read (refresh_token old) (limit_signups redis py settings ip s).0 ≡ none
  unfolding limit_signups
  none_signups old none s gone = gone
  none_signups old (some String.[]) s gone = gone
  none_signups old (some (String.◌∷◌ c rest)) s gone =
      none_check old (signup_rate_limit (String.◌∷◌ c rest)) signup_max rate_limit_window s
        (λ e. cc) gone

  create-redis :
      (id : ℕ) (form : SignUp) (ip : Option String) (meanwhile : List User) (w : World Store)
      → (create_user redis py settings id form ip meanwhile w).0.redis
        ≡ (limit_signups redis py settings ip w.redis).0
  unfolding create_user insert_user
  create-redis id form ip meanwhile w = ground arith

  verify-redis :
      (now : ℕ) (raw : String) (w : World Store)
      → (verify_email redis py settings now raw w).0.redis
        ≡ redis.delete
            (verify_token (py.hmac_sha256 settings.email_verification_hmac_secret raw))
            w.redis
  unfolding verify_email consume_verification_token getdel
  verify-redis now raw w = ground arith

  resend-redis :
      (email : String) (w : World Store)
      → (resend_verification redis py settings email w).0.redis
        ≡ (check_rate_limit redis settings
            (resend_rate_limit (py.sha256 (py.lower email)))
            resend_max
            rate_limit_window
            w.redis).0
  unfolding resend_verification
  resend-redis email w = ground arith

  none_issue :
      (old : String) (now : ℕ) (token : String) (user : User) (w : World Store)
      → token ≢ old
      → holds redis py settings w old ≡ none
      → holds redis py settings (issue_tokens redis py settings now token user w).0 old ≡ none
  unfolding issue_tokens store_refresh_token
  none_issue old now token user w other gone =
      none_set_refresh old w.redis gone token (py.uuid_str user.id)
        (settings.refresh_token_expire_days * 86400) other

  -- An event that does not draw a missing refresh token leaves it missing.
  step-none :
      (old : String) (e : Event) (w : World Store)
      → IsUndrawn old e
      → holds redis py settings w old ≡ none
      → holds redis py settings (step redis py settings w e) old ≡ none
  unfolding step store_verification_token logout_user delete_refresh_token refuse_login accept_login
  step-none old (signup id form ip meanwhile) w other gone =
      rw (step, create-redis id form ip meanwhile w) (none_signups old ip w.redis gone)
  step-none old (send_verification tag user_id ttl) w other gone =
      none_set old w.redis gone (verify_token tag) (py.uuid_str user_id) ttl (λ e. cc)
  step-none old (verify now raw) w other gone =
      rw (step, verify-redis now raw w) (none_delete old w.redis gone _)
  step-none old (resend email) w other gone =
      rw (step, resend-redis email w)
        (none_check old _ resend_max rate_limit_window w.redis (λ e. cc) gone)
  step-none old (login now token email password ip) w other gone =
      elim (login-cases redis py settings now token email password ip w) [
        | inl (user, accepted, eq) ↦ rw (step, eq) (none_issue old now token _ _ other gone)
        | inr (never, (entity_id, reason, eq)) ↦ rw (step, eq) gone
      ]
  step-none old (refresh now token old_token ip) w other gone =
      let taken = none_delete old w.redis gone (refresh_token old_token) in
      elim (refresh-cases redis py settings now token old_token ip w) [
        | inl refused ↦ rw (step, refused) taken
        | inr (value, user_id, user, held, parsed, found, may, eq) ↦
            rw (step, eq) (none_issue old now token user _ other taken)
      ]
  step-none old (log_out token teacher_id ip) w other gone =
      none_delete old w.redis gone (refresh_token token)
  step-none old (wait n) w other gone = none_elapse old w.redis gone n

  run-none :
      (old : String) (es : List Event) (w : World Store)
      → All (IsUndrawn old) es
      → holds redis py settings w old ≡ none
      → holds redis py settings (run redis py settings w es) old ≡ none
  unfolding run
  run-none old [] w undrawn gone = gone
  run-none old (e ∷ es) w undrawn gone =
      run-none old es (step redis py settings w e) undrawn.1 (step-none old e w undrawn.0 gone)

  refresh_without :
      (now : ℕ) (token old : String) (ip : Option String) (w : World Store)
      → holds redis py settings w old ≡ none
      → (refresh_access_token redis py settings now token old ip w).1 ≡ err refresh_token_invalid
  refresh_without now token old ip w gone =
      elim (refresh-cases redis py settings now token old ip w) [
        | inl refused ↦ rw refused refl
        | inr (value, user_id, user, held, parsed, found, may, eq) ↦ absurd cc
      ]

  step_spent :
      (old : String) (e : Event) (w : World Store)
      → IsUndrawn old e
      → IsSpent old e
      → holds redis py settings (step redis py settings w e) old ≡ none
  unfolding step logout_user delete_refresh_token
  step_spent old (refresh now token old_token ip) w other spent =
      let gone = redis.read_delete (refresh_token old) w.redis in
      rw spent (elim (refresh-cases redis py settings now token old ip w) [
        | inl refused ↦ rw (step, refused) gone
        | inr (value, user_id, user, held, parsed, found, may, eq) ↦
            rw (step, eq) (none_issue old now token user _ other gone)
      ])
  step_spent old (log_out token teacher_id ip) w other spent =
      rw spent (redis.read_delete (refresh_token old) w.redis)
  step_spent old _ w other spent = absurd spent

  -- A refresh token that a refresh was given, whether it returned or raised, or that a logout was given,
  -- is refused by every later refresh, after any run of calls and waits that does not draw it again.
  pub refresh_single_use :
      (old : String) (e : Event) (es : List Event) (w : World Store)
      → IsSpent old e
      → All (IsUndrawn old) (e ∷ es)
      → (now : ℕ) (token : String) (ip : Option String)
      → (refresh_access_token redis py settings now token old ip
          (run redis py settings w (e ∷ es))).1
        ≡ err refresh_token_invalid
  unfolding run
  refresh_single_use old e es w spent undrawn now token ip =
      refresh_without now token old ip (run redis py settings w (e ∷ es)) (
        run-none old es (step redis py settings w e) undrawn.1 (step_spent old e w undrawn.0 spent))
