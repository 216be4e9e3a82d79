-- ===== src/RateLimit.antt =====
-- app/core/rate_limit.py: the sliding window over a Redis sorted set. Redis is an interface: its
-- commands, and what they are documented to do. An instant is a number of ticks, `unit` to a second.
pub mod Runs
pub mod Window
mod Tests
use ai_kaeyris.Prelude.{
  ℕ, suc, ◌+◌, ◌-◌, ◌*◌, ◌/◌, max, ◌≡◌, Bool, true, false, ◌&&◌, not, Option, none, some, List, [],
  ◌∷◌, ◌++◌, length, select, head?, leb, ltb, if◌then◌else◌, Result, ok, err,
}
use ai_kaeyris.Text.{Text, codes}

-- The commands that the limiter sends. `R` is the state of the server.
pub record Redis (R : Type 0) : Type 0 where
  pub zremrangebyscore : Text → ℕ → ℕ → R → R
  pub zcard : Text → R → ℕ
  pub zrange_first : Text → R → Option ℕ
  pub zadd : Text → Text → ℕ → R → R
  pub expire : Text → ℕ → R → R

abbrev pub insert_score : ℕ → List ℕ → List ℕ
insert_score s [] = s ∷ []
insert_score s (x ∷ xs) = let rest = insert_score s xs in if leb s x then s ∷ x ∷ xs else x ∷ rest

abbrev pub outside : ℕ → ℕ → ℕ → Bool
outside lo hi s = not (leb lo s && leb s hi)

-- The documentation of the commands, on the scores of a set in ascending order. A new member adds
-- its score, and a deadline does not change the set before it passes.
pub record IsRedis (R : Type 0) (redis : Redis R) (scores : Text → R → List ℕ)
    (is_new : Text → Text → R → Bool) : Type 0 where
  pub removed :
      (k : Text) (lo hi : ℕ) (r : R)
      → scores k (redis.zremrangebyscore k lo hi r) ≡ select (outside lo hi) (scores k r)
  pub counted : (k : Text) (r : R) → redis.zcard k r ≡ length (scores k r)
  pub smallest : (k : Text) (r : R) → redis.zrange_first k r ≡ head? (scores k r)
  pub added :
      (k m : Text) (s : ℕ) (r : R)
      → is_new k m r ≡ true
      → scores k (redis.zadd k m s r) ≡ insert_score s (scores k r)
  pub still_new :
      (k m : Text) (lo hi : ℕ) (r : R)
      → is_new k m r ≡ true
      → is_new k m (redis.zremrangebyscore k lo hi r) ≡ true
  pub deadline_set : (k : Text) (s : ℕ) (r : R) → scores k (redis.expire k s r) ≡ scores k r

abbrev pub key_of : Text → Text
key_of bucket = codes "ratelimit:" ++ bucket

-- What the check comes to.
pub data Verdict : Type 0 where
  allowed : Verdict
  retry_after : ℕ → Verdict

module _ {R : Type 0} (redis : Redis R) (limit window_seconds unit : ℕ) where
  abbrev pub window : ℕ
  window = window_seconds * unit

  -- A cutoff before the epoch removes nothing.
  abbrev pub evict : ℕ → Text → R → R
  evict now key r = if ltb now window then r else redis.zremrangebyscore key 0 (now - window) r

  -- `max(1, int(oldest_score + window_seconds - now) + 1)`
  abbrev pub seconds_left : ℕ → Option ℕ → ℕ
  seconds_left now (some oldest) = max 1 ((oldest + window - now) / unit + 1)
  seconds_left now none = window_seconds

  -- The second pipeline; `member` is the instant and a random token.
  abbrev pub record_request : ℕ → Text → Text → R → R
  record_request now key member r = redis.expire key window_seconds (redis.zadd key member now r)

  -- The first pipeline evicts and counts. Each pipeline is atomic, and `between` is what the server does
  -- for others before the next command of this check.
  unfoldable pub check_and_record : ℕ → Text → Text → (R → R) → R → Verdict × R
  check_and_record now bucket member between r =
      let key = key_of bucket in
      let evicted = evict now key r in
      let later = between evicted in
      if leb limit (redis.zcard key evicted)
      then (retry_after (seconds_left now (redis.zrange_first key later)), later)
      else (allowed, record_request now key member later)
