-- ===== src/Examples/Cache.antt =====
-- A Redis for the examples: values with an expiry, counters with one, and a clock.
use rubric_grading_engine.Prelude.{
  ℕ, suc, ◌+◌, ◌<◌, String, ◌≡◌, refl, ap, ◌≢◌, inl, inr, Bool, true, false, Option, none, some,
  arith, ltb, leb, if◌then◌else◌, Bool-cases, Option-cases,
}
use rubric_grading_engine.Prelude.Texts.{str_eq, str_eq_iff}
use rubric_grading_engine.Auth.{
  RedisKey, signup_rate_limit, resend_rate_limit, verify_token, refresh_token, Redis,
}

unfoldable pub key_eq : RedisKey → RedisKey → Bool
key_eq (signup_rate_limit a) (signup_rate_limit b) = str_eq a b
key_eq (resend_rate_limit a) (resend_rate_limit b) = str_eq a b
key_eq (verify_token a) (verify_token b) = str_eq a b
key_eq (refresh_token a) (refresh_token b) = str_eq a b
key_eq _ _ = false

pub key_eq_refl : (k : RedisKey) → key_eq k k ≡ true
unfolding key_eq
key_eq_refl (signup_rate_limit a) = (str_eq_iff a a).1 refl
key_eq_refl (resend_rate_limit a) = (str_eq_iff a a).1 refl
key_eq_refl (verify_token a) = (str_eq_iff a a).1 refl
key_eq_refl (refresh_token a) = (str_eq_iff a a).1 refl

pub key_eq_path : (j k : RedisKey) → key_eq j k ≡ true → j ≡ k
unfolding key_eq
key_eq_path (signup_rate_limit a) (signup_rate_limit b) h =
    ap signup_rate_limit ((str_eq_iff a b).0 h)
key_eq_path (resend_rate_limit a) (resend_rate_limit b) h =
    ap resend_rate_limit ((str_eq_iff a b).0 h)
key_eq_path (verify_token a) (verify_token b) h = ap verify_token ((str_eq_iff a b).0 h)
key_eq_path (refresh_token a) (refresh_token b) h = ap refresh_token ((str_eq_iff a b).0 h)
key_eq_path _ _ h = absurd cc

pub key_eq_other : (j k : RedisKey) → j ≢ k → key_eq j k ≡ false
key_eq_other j k h = elim (Bool-cases (key_eq j k)) [
  | inl same ↦ absurd (h (key_eq_path j k same))
  | inr other ↦ other
]

-- A value with the instant of its expiry; a count with that of its own, if it has one.
pub record Cache : Type 0 where
  pub clock : ℕ
  pub value : RedisKey → Option (String × ℕ)
  pub counter : RedisKey → ℕ
  pub due : RedisKey → Option ℕ

abbrev pub live : Option (String × ℕ) → ℕ → Option String
live none now = none
live (some (v, expiry)) now = if ltb now expiry then some v else none

abbrev pub is_due : Option ℕ → ℕ → Bool
is_due none now = false
is_due (some d) now = leb d now

abbrev pub write {ℓ} : {A : Type ℓ} → RedisKey → A → (RedisKey → A) → RedisKey → A
write k a f j = if key_eq j k then a else f j

abbrev pub read : RedisKey → Cache → Option String
read k s = live (s.value k) s.clock

abbrev pub count : RedisKey → Cache → ℕ
count k s = if is_due (s.due k) s.clock then 0 else s.counter k

abbrev pub set : RedisKey → String → ℕ → Cache → Cache
set k v ttl s = record s { value = write k (some (v, s.clock + ttl)) s.value }

abbrev pub delete : RedisKey → Cache → Cache
delete k s = record s { value = write k none s.value }

abbrev pub incr : RedisKey → Cache → Cache
incr k s = record s {
  counter = write k (suc (count k s)) s.counter;
  due = write k (if is_due (s.due k) s.clock then none else s.due k) s.due;
}

abbrev pub expire : RedisKey → ℕ → Cache → Cache
expire k ttl s = record s {
  counter = write k (count k s) s.counter;
  due = write k (some (s.clock + ttl)) s.due;
}

pub read_delete_any :
    (j k : RedisKey) (s : Cache) (v : String) → read j (delete k s) ≡ some v → read j s ≡ some v
read_delete_any j k s v h = elim (Bool-cases (key_eq j k)) [
  | inl same ↦ absurd (ground (arith, h, same))
  | inr other ↦ ground (arith, h, other)
]

pub count_incr : (k : RedisKey) (s : Cache) → count k (incr k s) ≡ suc (count k s)
count_incr k s = let same = key_eq_refl k in ground (arith, same)

pub read_set :
    (k : RedisKey) (v : String) (ttl : ℕ) (s : Cache) → 0 < ttl → read k (set k v ttl s) ≡ some v
read_set k v ttl s h = let same = key_eq_refl k in ground (arith, same, h)

pub read_elapse :
    (k : RedisKey) (n : ℕ) (s : Cache) (v : String)
    → read k (record s { clock = s.clock + n }) ≡ some v
    → read k s ≡ some v
read_elapse k n s v h = elim (Option-cases (s.value k)) [
  | inl none_ ↦ absurd (ground (arith, h, none_))
  | inr ((w, expiry), is) ↦ ground (arith, h, is)
]

pub count_expire :
    (j k : RedisKey) (ttl : ℕ) (s : Cache) → 0 < ttl → count j (expire k ttl s) ≡ count j s
count_expire j k ttl s h = elim (Bool-cases (key_eq j k)) [
  | inl same ↦ let e = key_eq_path j k same in rw (e, key_eq_refl k) (ground (arith, h))
  | inr other ↦ rw other refl
]

abbrev pub cache : Redis Cache
cache = record {
  read = read;
  count = count;
  set = set;
  delete = delete;
  incr = incr;
  expire = expire;
  elapse = λ n s. record s { clock = s.clock + n };
  read_set = read_set;
  read_set_other = λ j k v ttl s h. rw (key_eq_other j k h) refl;
  read_delete = λ k s. rw (key_eq_refl k) refl;
  read_delete_any = read_delete_any;
  read_incr_other = λ j k s h. refl;
  read_expire = λ j k ttl s v h. h;
  read_elapse = read_elapse;
  count_incr = count_incr;
  count_incr_other = λ j k s h. rw (key_eq_other j k h) refl;
  count_expire = count_expire;
}
