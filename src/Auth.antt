-- ===== src/Auth.antt =====
-- Accounts and sessions: the state of backend/app/services/auth.py, with the user rows of
-- backend/app/models/user.py, the rate limit, the single-use tokens and the access tokens. Instants are
-- in seconds. Redis is an interface with the documented behaviour of its commands; hashing, HMAC, JWT,
-- bcrypt and UUID text are parameters.
pub mod Accounts
pub mod Sessions
pub mod Tokens
pub mod Limits
pub mod Registration
pub mod Events
pub mod Runs
pub mod Logins
use rubric_grading_engine.Prelude.{
  ℕ, suc, ◌+◌, ◌*◌, ◌<◌, String, ◌≡◌, ◌≢◌, Bool, Option, none, some, List, ltb, ◌==◌, if◌then◌else◌,
}
use rubric_grading_engine.Prelude.Results.{rate_limited, Result, ok, raise_if}

pub data UserRole : Type 0 where
  teacher admin : UserRole

pub record User : Type 0 where
  pub id : ℕ
  pub email : String
  pub hashed_password : String
  pub first_name : String
  pub last_name : String
  pub school_name : String
  pub role : UserRole
  pub email_verified : Bool
  pub onboarding_complete : Bool
  pub trial_ends_at : Option ℕ
  pub last_login_at : Option ℕ

pub data FailureReason : Type 0 where
  email_not_found email_not_verified invalid_password : FailureReason

-- `action`, with the `after_value` of the actions that have one.
pub data AuthAction : Type 0 where
  teacher_account_created : String → AuthAction
  login_failure : FailureReason → AuthAction
  login_success token_refreshed logout : AuthAction

-- The entity type of these entries is always "user".
pub record AuthAudit : Type 0 where
  pub teacher_id : Option ℕ
  pub entity_id : Option ℕ
  pub action : AuthAction
  pub ip_address : Option String

-- The keys, one constructor for each prefix.
pub data RedisKey : Type 0 where
  signup_rate_limit : String → RedisKey
  resend_rate_limit : String → RedisKey
  verify_token : String → RedisKey
  refresh_token : String → RedisKey

-- Redis commands on keys, and what a `GET` and a counter read before and after them.
pub record Redis (Store : Type 0) : Type 0 where
  pub read : RedisKey → Store → Option String
  pub count : RedisKey → Store → ℕ
  pub set : RedisKey → String → ℕ → Store → Store
  pub delete : RedisKey → Store → Store
  pub incr : RedisKey → Store → Store
  pub expire : RedisKey → ℕ → Store → Store
  pub elapse : ℕ → Store → Store
  pub read_set :
      (k : RedisKey) (v : String) (ttl : ℕ) (s : Store) → 0 < ttl → read k (set k v ttl s) ≡ some v
  pub read_set_other :
      (j k : RedisKey) (v : String) (ttl : ℕ) (s : Store)
      → j ≢ k
      → read j (set k v ttl s) ≡ read j s
  pub read_delete : (k : RedisKey) (s : Store) → read k (delete k s) ≡ none
  pub read_delete_any :
      (j k : RedisKey) (s : Store) (v : String) → read j (delete k s) ≡ some v → read j s ≡ some v
  pub read_incr_other : (j k : RedisKey) (s : Store) → j ≢ k → read j (incr k s) ≡ read j s
  pub read_expire :
      (j k : RedisKey) (ttl : ℕ) (s : Store) (v : String)
      → read j (expire k ttl s) ≡ some v
      → read j s ≡ some v
  pub read_elapse :
      (k : RedisKey) (n : ℕ) (s : Store) (v : String)
      → read k (elapse n s) ≡ some v
      → read k s ≡ some v
  pub count_incr : (k : RedisKey) (s : Store) → count k (incr k s) ≡ suc (count k s)
  pub count_incr_other : (j k : RedisKey) (s : Store) → j ≢ k → count j (incr k s) ≡ count j s
  pub count_expire :
      (j k : RedisKey) (ttl : ℕ) (s : Store) → 0 < ttl → count j (expire k ttl s) ≡ count j s

-- The payload of an access token.
pub record Claims : Type 0 where
  pub sub : String
  pub email : String
  pub iat : ℕ
  pub exp : ℕ

-- What the service calls of other libraries.
pub record Externals : Type 0 where
  pub lower : String → String
  pub sha256 : String → String
  pub hmac_sha256 : String → String → String
  pub hashpw : String → String
  pub checkpw : String → String → Bool
  pub uuid_str : ℕ → String
  pub uuid : String → Option ℕ
  pub jwt_encode : Claims → String

pub record Settings : Type 0 where
  pub rate_limit_enabled : Bool
  pub email_verification_hmac_secret : String
  pub allow_unverified_login_in_test : Bool
  pub refresh_token_expire_days : ℕ
  pub short_lived_token_ttl_seconds : Option ℕ
  pub access_token_expire_minutes : ℕ

pub record World (Store : Type 0) : Type 0 where
  pub users : List User
  pub audit_logs : List AuthAudit
  pub redis : Store

-- A call ends with the state it leaves, also when it raises.
abbrev pub Outcome : Type 0 → Type 0 → Type 0
Outcome Store A = World Store × Result A

abbrev pub signup_max : ℕ
signup_max = 5

abbrev pub resend_max : ℕ
resend_max = 3

abbrev pub rate_limit_window : ℕ
rate_limit_window = 3600

-- 30 days.
abbrev pub trial_duration : ℕ
trial_duration = 2592000

module _ {Store : Type 0} (redis : Redis Store) where
  -- INCR, EXPIRE on the first, and the test on the count.
  unfoldable pub check_rate_limit : Settings → RedisKey → ℕ → ℕ → Store → Store × Result (Unit {0})
  check_rate_limit settings key max_requests window s =
      let incremented = redis.incr key s in
      let current = redis.count key incremented in
      let kept = if current == 1 then redis.expire key window incremented else incremented in
      if settings.rate_limit_enabled
      then (kept, raise_if (ltb max_requests current) rate_limited)
      else (s, ok tt)

  -- GETDEL
  unfoldable pub getdel : RedisKey → Store → Store × Option String
  getdel key s = (redis.delete key s, redis.read key s)

  -- `None` for a missing key, and for a value that is no UUID.
  abbrev pub parse_uuid : Externals → Option String → Option ℕ
  parse_uuid py none = none
  parse_uuid py (some value) = py.uuid value

  unfoldable pub store_verification_token : Externals → String → ℕ → ℕ → Store → Store
  store_verification_token py hmac_tag user_id ttl s =
      redis.set (verify_token hmac_tag) (py.uuid_str user_id) ttl s

  unfoldable pub consume_verification_token : Externals → String → String → Store → Store × Option ℕ
  consume_verification_token py secret raw_token s =
      let (deleted, value) = getdel (verify_token (py.hmac_sha256 secret raw_token)) s in
      (deleted, parse_uuid py value)

  unfoldable pub store_refresh_token : Externals → String → ℕ → ℕ → Store → Store
  store_refresh_token py token user_id ttl s =
      redis.set (refresh_token token) (py.uuid_str user_id) ttl s

  unfoldable pub consume_refresh_token : Externals → String → Store → Store × Option ℕ
  consume_refresh_token py token s =
      let (deleted, value) = getdel (refresh_token token) s in (deleted, parse_uuid py value)

  unfoldable pub delete_refresh_token : String → Store → Store
  delete_refresh_token token s = redis.delete (refresh_token token) s

-- The raw token, drawn at random by the caller, and its tag.
unfoldable pub generate_verification_token : Externals → String → String → String × String
generate_verification_token py secret drawn = (drawn, py.hmac_sha256 secret drawn)

unfoldable pub create_access_token : Externals → Settings → ℕ → ℕ → String → String
create_access_token py settings now user_id email =
    let ttl : ℕ = elim settings.short_lived_token_ttl_seconds [
      | some seconds ↦ seconds
      | none ↦ 60 * settings.access_token_expire_minutes
    ] in
    py.jwt_encode (record { sub = py.uuid_str user_id; email = email; iat = now; exp = now + ttl })
