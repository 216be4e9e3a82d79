-- ===== src/RateLimit/Tests.antt =====
-- A server that does what Redis documents, and instances of the limiter's theorems.
use ai_kaeyris.Prelude.{
  ℕ, ◌+◌, ◌*◌, ◌≤◌, ◌<◌, ◌↔◌, ◌≡◌, refl, arith, Bool, true, ◌&&◌, List, [], ◌∷◌, length, select,
  head?, leb, ltb,
}
use ai_kaeyris.Text.{Text, codes}
use ai_kaeyris.RateLimit.{Redis, IsRedis, insert_score, outside, allowed, window, check_and_record}
use ai_kaeyris.RateLimit.Runs.{count_live, Undisturbed, Run, start, accept}
use ai_kaeyris.RateLimit.Window.{within_limit, check_and_record-exact, retry_after-suffices}

-- One set for all keys, of which only the scores are kept.
abbrev server : Redis (List ℕ)
server = record {
  zremrangebyscore = λ k lo hi r. select (outside lo hi) r;
  zcard = λ k r. length r;
  zrange_first = λ k r. head? r;
  zadd = λ k m s r. insert_score s r;
  expire = λ k s r. r;
}

abbrev scores : Text → List ℕ → List ℕ
scores k r = r

abbrev is_new : Text → Text → List ℕ → Bool
is_new k m r = true

server-IsRedis : IsRedis (List ℕ) server scores is_new
server-IsRedis = record {
  removed = λ k lo hi r. refl;
  counted = λ k r. refl;
  smallest = λ k r. refl;
  added = λ k m s r h. refl;
  still_new = λ k m lo hi r h. refl;
  deadline_set = λ k s r. refl;
}

quiet : Undisturbed server scores is_new 2 60 1 (codes "k") (λ r. r)
quiet = λ r. (refl, λ m. refl)

-- Two checks of one client that overlap: both are let in, by a limit of one.
overlapping_checks :
    check_and_record server 1 60 1 100
      (codes "k")
      (codes "a")
      (λ r. (check_and_record server 1 60 1 100 (codes "k") (codes "b") (λ r. r) r).1)
      []
    ≡ (allowed, 100 ∷ 100 ∷ [])
unfolding check_and_record
overlapping_checks = refl

-- Two requests in a window of 60 seconds, at 100 and 110.
two_requests : Run server scores is_new 2 60 1 (codes "k") (110 ∷ 100 ∷ []) 110 (100 ∷ 110 ∷ [])
unfolding check_and_record
two_requests =
    accept {times = 100 ∷ []} {t = 100} {r = 100 ∷ []} {now = 110} (codes "b") (λ r. r) quiet
      (accept {times = []} {t = 0} {r = []} {now = 100} (codes "a") (λ r. r) quiet (start refl)
        (omega arith) refl refl)
      (omega arith) refl refl

within_limit_example :
    length (select (λ s. ltb 95 s && leb s (95 + window server 2 60 1)) (110 ∷ 100 ∷ [])) ≤ 2
within_limit_example =
    within_limit server scores is_new server-IsRedis 2 60 1 (codes "k") (110 ∷ 100 ∷ []) 110
      (100 ∷ 110 ∷ []) two_requests 95

check_and_record-exact_example :
    ((check_and_record server 2 60 1 120 (codes "k") (codes "c") (λ r. r) (100 ∷ 110 ∷ [])).0
      ≡ allowed)
    ↔ (count_live (window server 2 60 1) 120 (110 ∷ 100 ∷ []) < 2)
check_and_record-exact_example =
    check_and_record-exact server scores is_new server-IsRedis 2 60 1 (codes "k") (110 ∷ 100 ∷ [])
      110 120 (codes "c") (λ r. r) (100 ∷ 110 ∷ []) two_requests (omega arith)

retry_after-suffices_example :
    (check_and_record server 2 60 1
      (120 + 41 * 1)
      (codes "k")
      (codes "d")
      (λ r. r)
      (check_and_record server 2 60 1 120 (codes "k") (codes "c") (λ r. r) (100 ∷ 110 ∷ [])).1).0
    ≡ allowed
unfolding check_and_record
retry_after-suffices_example =
    retry_after-suffices server scores is_new server-IsRedis 2 60 1 (codes "k") (110 ∷ 100 ∷ []) 110
      120 41 (codes "c") (codes "d") (λ r. r) (λ r. r) (100 ∷ 110 ∷ []) two_requests quiet
      (omega arith) (omega arith) (omega arith) refl
