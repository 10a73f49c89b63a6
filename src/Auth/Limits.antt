-- ===== src/Auth/Limits.antt =====
-- The rate limit, over any number of calls with any keys before a counter expires.
use rubric_grading_engine.Prelude.{
  ℕ, suc, ◌+◌, ◌-◌, ◌<◌, ◌≡◌, refl, ◌∙◌, ◌≢◌, inl, inr, true, List, [], ◌∷◌, arith, ltb, leb, ◌==◌,
  if◌then◌else◌, Bool-cases,
}
use rubric_grading_engine.Prelude.Results.{Result, ok, err}
use rubric_grading_engine.Auth.{RedisKey, Redis, Settings, check_rate_limit}

-- A call that checks the key in question, or another one.
pub data Call : Type 0 where
  same : Call
  other : RedisKey → Call

-- The other calls' keys are not the key.
abbrev pub AreOther : RedisKey → List Call → Type 0
AreOther k [] = Unit
AreOther k (same ∷ cs) = AreOther k cs
AreOther k (other j ∷ cs) = (k ≢ j) × AreOther k cs

-- The number of calls with the key.
abbrev pub calls : List Call → ℕ
calls [] = 0
calls (same ∷ cs) = suc (calls cs)
calls (other _ ∷ cs) = calls cs

abbrev pub one_if_ok : Result (Unit {0}) → ℕ
one_if_ok (ok _) = 1
one_if_ok (err _) = 0

abbrev pub min : ℕ → ℕ → ℕ
min a b = if leb a b then a else b

module _ {Store : Type 0} (redis : Redis Store) (settings : Settings) (most window : ℕ) where
  -- How many of the calls with the key are let through.
  unfoldable pub passed : RedisKey → List Call → Store → ℕ
  passed k [] s = 0
  passed k (same ∷ cs) s =
      let (s', r) = check_rate_limit redis settings k most window s in one_if_ok r + passed k cs s'
  passed k (other j ∷ cs) s = passed k cs (check_rate_limit redis settings j most window s).0

  module _ (enabled : settings.rate_limit_enabled ≡ true) (positive : 0 < window) where
    count_check :
        (k : RedisKey) (s : Store)
        → redis.count k (check_rate_limit redis settings k most window s).0 ≡ suc (redis.count k s)
    unfolding check_rate_limit
    count_check k s = elim (Bool-cases (redis.count k (redis.incr k s) == 1)) [
      | inl first ↦
          rw (enabled, first)
            (redis.count_expire k k window (redis.incr k s) positive ∙ redis.count_incr k s)
      | inr later ↦ rw (enabled, later) (redis.count_incr k s)
    ]

    count_check_other :
        (k j : RedisKey) (s : Store)
        → k ≢ j
        → redis.count k (check_rate_limit redis settings j most window s).0 ≡ redis.count k s
    unfolding check_rate_limit
    count_check_other k j s apart = elim (Bool-cases (redis.count j (redis.incr j s) == 1)) [
      | inl first ↦
          rw (enabled, first)
            (redis.count_expire k j window (redis.incr j s) positive
              ∙ redis.count_incr_other k j s apart)
      | inr later ↦ rw (enabled, later) (redis.count_incr_other k j s apart)
    ]

    check_passes :
        (k : RedisKey) (s : Store)
        → one_if_ok (check_rate_limit redis settings k most window s).1
          ≡ (if ltb (redis.count k s) most then 1 else 0)
    unfolding check_rate_limit
    check_passes k s = rw (enabled, redis.count_incr k s) (ground arith)

    -- With the limit enabled, of the calls with one key, however they are mixed with calls for other
    -- keys, exactly as many are let through as the limit leaves after the calls counted before: the
    -- smaller of their number and of the limit less the count. No counter expires meanwhile.
    pub passed-min :
        (k : RedisKey) (cs : List Call) (s : Store)
        → AreOther k cs
        → passed k cs s ≡ min (calls cs) (most - redis.count k s)
    unfolding passed
    passed-min k [] s h = ground arith
    passed-min k (same ∷ cs) s h =
        let s' = (check_rate_limit redis settings k most window s).0 in
        rw (check_passes k s, passed-min k cs s' h, count_check k s) (ground arith)
    passed-min k (other j ∷ cs) s h =
        let s' = (check_rate_limit redis settings j most window s).0 in
        rw (passed-min k cs s' h.1, count_check_other k j s h.0) refl
