-- ===== src/Auth/Tokens.antt =====
-- Single-use tokens, and what a login, a refresh and a logout do to them.
use rubric_grading_engine.Prelude.{
  ℕ, ◌*◌, ◌<◌, String, ◌≡◌, refl, sym, ◌∙◌, ◌≢◌, ◌⊎◌, inl, inr, true, Option, none, some, arith,
  Bool-cases, Option-cases,
}
use rubric_grading_engine.Prelude.Results.{refresh_token_invalid, ok, err}
use rubric_grading_engine.Prelude.Tables.{get}
use rubric_grading_engine.Auth.{
  User, verify_token, refresh_token, Redis, Externals, Settings, World, getdel,
  store_verification_token, consume_verification_token, store_refresh_token, consume_refresh_token,
  generate_verification_token, token_refreshed,
}
use rubric_grading_engine.Auth.Accounts.{user_row}
use rubric_grading_engine.Auth.Sessions.{
  Session, user_audit, log_entry, may_sign_in, issue_tokens, refresh_access_token,
}

pub refresh_token_injective : (a b : String) → refresh_token a ≡ refresh_token b → a ≡ b
refresh_token_injective a b h = cc

module _ {Store : Type 0} (redis : Redis Store) (py : Externals) (settings : Settings) where
  abbrev pub holds : World Store → String → Option String
  holds w token = redis.read (refresh_token token) w.redis

  -- A generated verification token, once its tag is stored for a user for some time, is consumed by its
  -- raw form with that user's id, and consumed again gives nothing, when a UUID's text is read back.
  pub store-consume_verification_token :
      (drawn : String) (user_id ttl : ℕ) (s : Store)
      → 0 < ttl
      → py.uuid (py.uuid_str user_id) ≡ some user_id
      → let secret = settings.email_verification_hmac_secret in
        let (raw_token, hmac_tag) = generate_verification_token py secret drawn in
        let stored = store_verification_token redis py hmac_tag user_id ttl s in
        let (s1, first) = consume_verification_token redis py secret raw_token stored in
        let (s2, second) = consume_verification_token redis py secret raw_token s1 in
        (first ≡ some user_id) × (second ≡ none)
  unfolding generate_verification_token store_verification_token consume_verification_token getdel
  store-consume_verification_token drawn user_id ttl s positive h =
      let key = verify_token (py.hmac_sha256 settings.email_verification_hmac_secret drawn) in
      (
        rw (redis.read_set key (py.uuid_str user_id) ttl s positive) h,
        rw (redis.read_delete key (redis.set key (py.uuid_str user_id) ttl s)) refl,
      )

  -- What a refresh that returned did: the token was stored for the user, who may sign in; it is gone, and
  -- the drawn token is stored for the same user.
  pub record Refreshed (token old_token : String) (w w' : World Store) (session : Session)
      : Type 0 where
    pub value : String
    pub user_id : ℕ
    pub held : holds w old_token ≡ some value
    pub parsed : py.uuid value ≡ some user_id
    pub found : get user_id w.users ≡ some session.0
    pub allowed : may_sign_in redis py settings session.0 ≡ true
    pub rotated : holds w' token ≡ some (py.uuid_str session.0.id)
    pub spent : token ≢ old_token → holds w' old_token ≡ none
    pub users : w'.users ≡ w.users

  -- The state after the presented token is taken out.
  abbrev pub without : String → World Store → World Store
  without token w = record w { redis = redis.delete (refresh_token token) w.redis }

  -- A refresh is refused, and then only the presented token is taken out, or it issues tokens.
  pub refresh-cases :
      (now : ℕ) (token old_token : String) (ip : Option String) (w : World Store)
      → (refresh_access_token redis py settings now token old_token ip w
          ≡ (without old_token w, err refresh_token_invalid))
        ⊎ ((value : String) × (user_id : ℕ) × (user : User) × (holds w old_token ≡ some value)
            × (py.uuid value ≡ some user_id)
            × (get user_id w.users ≡ some user)
            × (may_sign_in redis py settings user ≡ true)
            × (refresh_access_token redis py settings now token old_token ip w
                ≡ issue_tokens redis py settings now token user (
                    log_entry redis py settings
                      (user_audit (some user.id) (some user.id) token_refreshed ip)
                      (without old_token w))))
  unfolding refresh_access_token consume_refresh_token getdel
  refresh-cases now token old_token ip w = elim (Option-cases (holds w old_token)) [
    | inl gone ↦ inl (rw gone refl)
    | inr (value, held) ↦ elim (Option-cases (py.uuid value)) [
      | inl bad ↦ inl (rw (held, bad) refl)
      | inr (user_id, parsed) ↦ elim (Option-cases (get user_id w.users)) [
        | inl missing ↦ inl (rw (held, parsed, missing) refl)
        | inr (user, found) ↦ elim (Bool-cases (may_sign_in redis py settings user)) [
          | inl may ↦
              inr
                (value, user_id, user, held, parsed, found, may, rw (held, parsed, found, may) refl)
          | inr may_not ↦ inl (rw (held, parsed, found, may_not) refl)
        ]
      ]
    ]
  ]

  -- With a lifetime of at least a day: a refresh that returns was given a token that is stored for a user who may sign in; afterwards the
  -- new token is stored for that user, the presented one no longer is, unless it was drawn again, and
  -- the users are unchanged. One that raises takes out the presented token and changes nothing else.
  pub refresh-Refreshed :
      (now : ℕ) (token old_token : String) (ip : Option String) (w : World Store)
      → 0 < settings.refresh_token_expire_days
      → (refresh_access_token redis py settings now token old_token ip w
          ≡ (without old_token w, err refresh_token_invalid))
        ⊎ ((w' : World Store) × (session : Session) × (refresh_access_token redis py settings now
                token old_token ip w
              ≡ (w', ok session))
            × Refreshed token old_token w w' session)
  unfolding issue_tokens store_refresh_token
  refresh-Refreshed now token old_token ip w lasts = elim (refresh-cases now token old_token ip w) [
    | inl refused ↦ inl refused
    | inr (value, user_id, user, held, parsed, found, may, eq) ↦
        let lifetime = settings.refresh_token_expire_days * 86400 in
        let key = refresh_token old_token in
        let id = py.uuid_str user.id in
        inr (
          _,
          _,
          eq,
          record {
            value = value;
            user_id = user_id;
            held = held;
            parsed = parsed;
            found = found;
            allowed = may;
            rotated =
                redis.read_set (refresh_token token) id lifetime (redis.delete key w.redis)
                  (omega (arith, lasts));
            spent = λ other.
                redis.read_set_other key (refresh_token token) id lifetime
                  (redis.delete key w.redis)
                  (λ same. other (sym (refresh_token_injective old_token token same)))
                ∙ redis.read_delete key w.redis;
            users = refl;
          },
        )
  ]
