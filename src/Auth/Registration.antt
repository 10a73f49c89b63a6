-- ===== src/Auth/Registration.antt =====
-- An account from its creation on: its address is taken, however it is spelled, and it is closed until it
-- is verified.
use rubric_grading_engine.Prelude.{
  ℕ, String, ◌≡◌, refl, sym, ap, ◌∙◌, ◌⊎◌, inl, inr, true, false, Option, none, some, List, [], ◌∷◌,
  ◌++◌, arith, Bool-cases, Option-cases,
}
use rubric_grading_engine.Prelude.Results.{Error, conflict, unauthorized, ok, err, Result-cases}
use rubric_grading_engine.Prelude.Texts.{str_eq, str_eq_iff}
use rubric_grading_engine.Auth.{User, Redis, Externals, Settings, World}
use rubric_grading_engine.Auth.Accounts.{
  SignUp, user_by_email, new_user, limit_signups, insert_user, create_user,
}
use rubric_grading_engine.Auth.Sessions.{may_sign_in, login_user}
use rubric_grading_engine.Auth.Logins.{login_iff}

by_email-append_new :
    (email : String) (users : List User) (user : User)
    → user_by_email email users ≡ none
    → user.email ≡ email
    → user_by_email email (users ++ (user ∷ [])) ≡ some user
unfolding user_by_email
by_email-append_new email [] user unused same =
    let e = (str_eq_iff user.email email).1 same in rw e refl
by_email-append_new email (x ∷ users) user unused same = elim (Bool-cases (str_eq x.email email)) [
  | inl taken ↦ absurd (ground arith)
  | inr other ↦ rw other (by_email-append_new email users user (ground arith) same)
]

module _ {Store : Type 0} (redis : Redis Store) (py : Externals) (settings : Settings) where
  -- A creation that succeeded appended its user, whose address nobody had.
  create_inverse :
      (id : ℕ) (form : SignUp) (ip : Option String) (meanwhile : List User) (w w' : World Store)
      (user : User)
      → create_user redis py settings id form ip meanwhile w ≡ (w', ok user)
      → (user ≡ new_user py id form)
        × (user_by_email user.email (w.users ++ meanwhile) ≡ none)
        × (w'.users ≡ (w.users ++ meanwhile) ++ (user ∷ []))
  unfolding create_user insert_user
  create_inverse id form ip meanwhile w w' user h =
      elim (Result-cases (limit_signups redis py settings ip w.redis).1) [
        | inr (raised, limited) ↦ absurd (ground (arith, h, limited))
        | inl (passed, free) ↦ elim (Option-cases (user_by_email (py.lower form.email) w.users)) [
          | inr (old, found) ↦ absurd (ground (arith, h, free, found))
          | inl fresh ↦
              elim (Option-cases
                (user_by_email (new_user py id form).email (w.users ++ meanwhile))) [
                  | inr (old, found) ↦ absurd (ground (arith, h, free, fresh, found))
                  | inl unused ↦
                      let made : user ≡ new_user py id form =
                        ground (arith, h, free, fresh, unused) in
                      let users : w'.users ≡ (w.users ++ meanwhile) ++ (new_user py id form ∷ []) =
                        ground (arith, h, free, fresh, unused) in
                      (made, rw made unused, rw made users)
                ]
        ]
      ]

  unverified :
      {found : Option User} (id : ℕ) (form : SignUp) (user u : User)
      → found ≡ some user
      → user ≡ new_user py id form
      → found ≡ some u
      → may_sign_in redis py settings u ≡ true
      → settings.allow_unverified_login_in_test ≡ false
      → ⊥
  unfolding new_user
  unverified id form user u is made is' may strict =
      let one : u ≡ new_user py id form = ground arith in
      let closed : u.email_verified ≡ false = ap (λ (x : User). x.email_verified) one in
      ground arith

  -- After a sign-up that succeeded, for every address that has the same lower case. A further sign-up
  -- leaves the users as they are, and raises the error of the rate limit or a conflict. A login raises
  -- `unauthorized`, whatever the password, unless the setting of the tests lets unverified users in.
  pub create-user_once :
      (id : ℕ) (form : SignUp) (ip : Option String) (meanwhile : List User) (w w' : World Store)
      (user : User) (other_id : ℕ) (other : SignUp) (other_ip : Option String) (later : List User)
      (now : ℕ) (token password : String)
      → create_user redis py settings id form ip meanwhile w ≡ (w', ok user)
      → py.lower other.email ≡ py.lower form.email
      → settings.allow_unverified_login_in_test ≡ false
      → (let (again, r) = create_user redis py settings other_id other other_ip later w' in
          (again.users ≡ w'.users)
          × ((r ≡ err conflict)
              ⊎ ((raised : Error) × ((limit_signups redis py settings other_ip w'.redis).1
                    ≡ err raised)
                  × (r ≡ err raised))))
        × ((login_user redis py settings now token other.email password other_ip w').1
            ≡ err unauthorized)
  unfolding create_user new_user
  create-user_once id form ip meanwhile w w' user other_id other other_ip later now token password h
        same strict =
      let (made, unused, users) = create_inverse id form ip meanwhile w w' user h in
      let address : user.email ≡ py.lower other.email =
        ap (λ (u : User). u.email) made ∙ sym same in
      let found : user_by_email (py.lower other.email) w'.users ≡ some user =
        rw (users, ← address)
          (by_email-append_new user.email (w.users ++ meanwhile) user unused refl) in
      (
        elim (Result-cases (limit_signups redis py settings other_ip w'.redis).1) [
          | inr (raised, limited) ↦ rw (create_user, limited) (refl, inr (raised, refl, refl))
          | inl (passed, free) ↦ rw (create_user, free, found) (refl, inl refl)
        ],
        elim (login_iff redis py settings now token other.email password other_ip w').1 [
          | inr (entity_id, reason, refused, logged, users_kept, redis_kept) ↦ refused
          | inl accepted ↦
              let (u, (is, may, right)) =
                (login_iff redis py settings now token other.email password other_ip w').0.0
                  accepted in
              absurd (unverified id form user u found made is may strict)
        ],
      )
