-- ===== src/Auth/Logins.antt =====
-- Which logins are accepted, and what a refused one leaves.
use rubric_grading_engine.Prelude.{
  ℕ, String, ◌≡◌, refl, ◌↔◌, ◌⊎◌, inl, inr, true, Option, none, some, [], ◌∷◌, ◌++◌, Bool-cases,
  Option-cases,
}
use rubric_grading_engine.Prelude.Results.{unauthorized, ok, err}
use rubric_grading_engine.Auth.{
  User, FailureReason, email_not_found, email_not_verified, invalid_password, login_failure, Redis,
  Externals, Settings, World,
}
use rubric_grading_engine.Auth.Accounts.{user_by_email, user_row}
use rubric_grading_engine.Auth.Sessions.{
  Session, user_audit, refuse_login, may_sign_in, issue_tokens, accept_login, login_user,
}

module _ {Store : Type 0} (redis : Redis Store) (py : Externals) (settings : Settings) where
  -- The user of the address may sign in and has the password.
  abbrev pub IsAccepted : String → String → World Store → User → Type 0
  IsAccepted email password w user =
      (user_by_email (py.lower email) w.users ≡ some user)
      × (may_sign_in redis py settings user ≡ true)
      × (py.checkpw password user.hashed_password ≡ true)

  pub login-cases :
      (now : ℕ) (token email password : String) (ip : Option String) (w : World Store)
      → ((user : User) × IsAccepted email password w user
          × (login_user redis py settings now token email password ip w
              ≡ accept_login redis py settings now token user ip w))
        ⊎ (((user : User) → ¬ IsAccepted email password w user)
            × ((entity_id : Option ℕ) × (reason : FailureReason) × (login_user redis py settings now
                    token email password ip w
                  ≡ refuse_login redis py settings entity_id reason ip w)))
  unfolding login_user
  login-cases now token email password ip w =
      elim (Option-cases (user_by_email (py.lower email) w.users)) [
        | inl missing ↦
            inr (
              λ user (h0, h1, h2). absurd cc,
              (none, email_not_found, rw (login_user, missing) refl),
            )
        | inr (user, found) ↦ elim (Bool-cases (may_sign_in redis py settings user)) [
          | inr not_verified ↦ inr (
            λ other (h0, h1, h2). absurd cc,
            (some user.id, email_not_verified, rw (login_user, found, not_verified) refl),
          )
          | inl may ↦ elim (Bool-cases (py.checkpw password user.hashed_password)) [
            | inr wrong ↦ inr (
              λ other (h0, h1, h2). absurd cc,
              (some user.id, invalid_password, rw (login_user, found, may, wrong) refl),
            )
            | inl right ↦ inl (user, (found, may, right), rw (login_user, found, may, right) refl)
          ]
        ]
      ]

  -- A login returns exactly if the user of the address may sign in and has the password. A login that
  -- is refused raises `unauthorized`, adds one entry without a teacher to the audit log, and changes
  -- neither the users nor Redis.
  pub login_iff :
      (now : ℕ) (token email password : String) (ip : Option String) (w : World Store)
      → let (w', r) = login_user redis py settings now token email password ip w in
        (((session : Session) × (r ≡ ok session))
          ↔ ((user : User) × IsAccepted email password w user))
        × (((session : Session) × (r ≡ ok session))
            ⊎ ((entity_id : Option ℕ) × (reason : FailureReason) × (r ≡ err unauthorized)
                × (w'.audit_logs
                    ≡ w.audit_logs ++ (user_audit none entity_id (login_failure reason) ip ∷ []))
                × (w'.users ≡ w.users)
                × (w'.redis ≡ w.redis)))
  unfolding refuse_login accept_login issue_tokens
  login_iff now token email password ip w = elim (login-cases now token email password ip w) [
    | inl (user, accepted, eq) ↦ rw eq ((λ _. (user, accepted), λ _. (_, refl)), inl (_, refl))
    | inr (never, (entity_id, reason, eq)) ↦ rw eq (
      (λ (s, e). absurd cc, λ (user, accepted). absurd (never user accepted)),
      inr (entity_id, reason, refl, refl, refl, refl),
    )
  ]
