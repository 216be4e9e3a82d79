-- ===== src/RateLimit/Runs.antt =====
-- The requests of one client over time, and what the sorted set then holds.
use ai_kaeyris.Prelude.{
  ℕ, ◌+◌, ◌-◌, ◌≤◌, ◌<◌, ◌≡◌, refl, Bool, true, List, [], ◌∷◌, arith, length, select, ltb,
}
use ai_kaeyris.Text.{Text}
use ai_kaeyris.RateLimit.{
  Redis, insert_score, outside, key_of, Verdict, allowed, retry_after, window, check_and_record,
}

-- A request at instant `s` counts at instant `now` while it is younger than the window.
abbrev pub live : ℕ → ℕ → ℕ → Bool
live w now s = ltb now (s + w)

abbrev pub count_live : ℕ → ℕ → List ℕ → ℕ
count_live w now times = length (select (live w now) times)

pub count_live-later :
    (w now later : ℕ) (xs : List ℕ)
    → now ≤ later
    → count_live w later (select (live w now) xs) ≡ count_live w later xs
count_live-later w now later [] h = refl
count_live-later w now later (x ∷ xs) h = ground (arith, count_live-later w now later xs h)

pub count_live_mono :
    (w now later : ℕ) (xs : List ℕ) → now ≤ later → count_live w later xs ≤ count_live w now xs
count_live_mono w now later [] h = omega arith
count_live_mono w now later (x ∷ xs) h = ground (arith, count_live_mono w now later xs h)

pub count_live-insert :
    (w now s : ℕ) (xs : List ℕ) → count_live w now (insert_score s xs) ≡ count_live w now (s ∷ xs)
count_live-insert w now s [] = refl
count_live-insert w now s (x ∷ xs) = ground (arith, count_live-insert w now s xs)

pub select-outside :
    (w now : ℕ) (xs : List ℕ) → w ≤ now → select (outside 0 (now - w)) xs ≡ select (live w now) xs
select-outside w now [] h = refl
select-outside w now (x ∷ xs) h = ground (arith, select-outside w now xs h)

pub select-live_early : (w now : ℕ) (xs : List ℕ) → now < w → select (live w now) xs ≡ xs
select-live_early w now [] h = refl
select-live_early w now (x ∷ xs) h = ground (arith, select-live_early w now xs h)

module _ {R : Type 0} (redis : Redis R) (scores : Text → R → List ℕ)
    (is_new : Text → Text → R → Bool) (limit window_seconds unit : ℕ) (bucket : Text) where
  abbrev w : ℕ
  w = window redis limit window_seconds unit

  abbrev check : ℕ → Text → (R → R) → R → Verdict × R
  check now member between r =
      check_and_record redis limit window_seconds unit now bucket member between r

  -- What other clients do leaves the set of this one alone: no other check of the same client comes
  -- between the two commands of a check.
  abbrev pub Undisturbed : (R → R) → Type 0
  Undisturbed between =
      (r : R)
      → (scores (key_of bucket) (between r) ≡ scores (key_of bucket) r)
        × ((m : Text) → is_new (key_of bucket) m (between r) ≡ is_new (key_of bucket) m r)

  -- The instants of the accepted requests, the last one first; the present; and the server.
  -- `others` is what other clients do, and `lapse` the expiry of the key, not before every accepted
  -- request has left the window: the deadline is a window after the last of them.
  pub data Run : List ℕ → ℕ → R → Type 0 where
    start : {now : ℕ} {r : R} → scores (key_of bucket) r ≡ [] → Run [] now r
    accept :
        {times : List ℕ} {t : ℕ} {r : R} {now : ℕ} (member : Text) (between : R → R)
        → Undisturbed between
        → Run times t r
        → t ≤ now
        → is_new (key_of bucket) member r ≡ true
        → (check now member between r).0 ≡ allowed
        → Run (now ∷ times) now (check now member between r).1
    refuse :
        {times : List ℕ} {t : ℕ} {r : R} {now : ℕ} (seconds : ℕ) (member : Text) (between : R → R)
        → Undisturbed between
        → Run times t r
        → t ≤ now
        → (check now member between r).0 ≡ retry_after seconds
        → Run times now (check now member between r).1
    others :
        {times : List ℕ} {t : ℕ} {r r' : R}
        → Run times t r
        → scores (key_of bucket) r' ≡ scores (key_of bucket) r
        → Run times t r'
    lapse :
        {times : List ℕ} {t : ℕ} {r r' : R} {now : ℕ}
        → Run times t r
        → t ≤ now
        → select (live w now) times ≡ []
        → scores (key_of bucket) r' ≡ []
        → Run times now r'
