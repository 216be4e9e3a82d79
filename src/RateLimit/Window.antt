-- ===== src/RateLimit/Window.antt =====
-- The limiter of app/core/rate_limit.py over a window of time.
use ai_kaeyris.Prelude.{
  ℕ, ◌+◌, ◌-◌, ◌*◌, ◌/◌, ◌≤◌, ◌<◌, max, ◌≡◌, refl, sym, ap, subst, ◌∙◌, Bool, true, false, ◌&&◌,
  inl, inr, some, List, [], ◌∷◌, arith, length, select, head?, leb, ltb, Bool-cases,
  length-select-le, ◌↔◌, ◌↔◌,
}
use native.Mathlib.Nat.{lt-div-mul-add}
use ai_kaeyris.Text.{Text}
use ai_kaeyris.RateLimit.{
  Redis, IsRedis, insert_score, key_of, Verdict, allowed, retry_after, window, evict, seconds_left,
  check_and_record,
}
use ai_kaeyris.RateLimit.Runs.{
  live, count_live, count_live-later, count_live_mono, count_live-insert, select-outside,
  select-live_early, Undisturbed, Run, start, accept, refuse, others, lapse,
}

module _ {R : Type 0} (redis : Redis R) (scores : Text → R → List ℕ)
    (is_new : Text → Text → R → Bool) (laws : IsRedis R redis scores is_new)
    (limit window_seconds unit : ℕ) (bucket : Text) where
  abbrev w : ℕ
  w = window redis limit window_seconds unit

  abbrev key : Text
  key = key_of bucket

  abbrev History : List ℕ → ℕ → R → Type 0
  History = Run redis scores is_new limit window_seconds unit bucket

  scores-evict :
      (now : ℕ) (r : R)
      → scores key (evict redis limit window_seconds unit now key r)
        ≡ select (live w now) (scores key r)
  scores-evict now r = elim (Bool-cases (ltb now w)) [
    | inl early ↦ ground (arith, early, select-live_early w now (scores key r))
    | inr late ↦
        ground (arith, late, laws.removed key 0 (now - w) r, select-outside w now (scores key r))
  ]

  zcard-evict :
      (now : ℕ) (r : R)
      → redis.zcard key (evict redis limit window_seconds unit now key r)
        ≡ count_live w now (scores key r)
  zcard-evict now r = laws.counted key _ ∙ ap length (scores-evict now r)

  abbrev check : ℕ → Text → (R → R) → R → Verdict × R
  check now member between r =
      check_and_record redis limit window_seconds unit now bucket member between r

  abbrev pub Quiet : (R → R) → Type 0
  Quiet = Undisturbed redis scores is_new limit window_seconds unit bucket

  -- An accepted request had fewer than `limit` live scores before it, and adds its own.
  accepted :
      (now : ℕ) (member : Text) (between : R → R) (r : R)
      → (check now member between r).0 ≡ allowed
      → (count_live w now (scores key r) < limit)
        × ((check now member between r).1
            ≡ redis.expire key window_seconds (
                redis.zadd key member now
                  (between (evict redis limit window_seconds unit now key r))))
  unfolding check_and_record
  accepted now member between r e = ground (arith, zcard-evict now r)

  refused :
      (now seconds : ℕ) (member : Text) (between : R → R) (r : R)
      → (check now member between r).0 ≡ retry_after seconds
      → (limit ≤ count_live w now (scores key r))
        × ((check now member between r).1
            ≡ between (evict redis limit window_seconds unit now key r))
  unfolding check_and_record
  refused now seconds member between r e = ground (arith, zcard-evict now r)

  is_new-evict :
      (now : ℕ) (member : Text) (r : R)
      → is_new key member r ≡ true
      → is_new key member (evict redis limit window_seconds unit now key r) ≡ true
  is_new-evict now member r h = ground (arith, laws.still_new key member 0 (now - w) r h)

  scores-accepted :
      (now : ℕ) (member : Text) (between : R → R) (r : R)
      → Quiet between
      → is_new key member r ≡ true
      → (check now member between r).0 ≡ allowed
      → scores key (check now member between r).1
        ≡ insert_score now (select (live w now) (scores key r))
  scores-accepted now member between r quiet new e =
      ap (scores key) (accepted now member between r e).1
      ∙ laws.deadline_set key window_seconds _
      ∙ laws.added key member now _ ((quiet _).1 member ∙ is_new-evict now member r new)
      ∙ ap (insert_score now) ((quiet _).0 ∙ scores-evict now r)

  scores-refused :
      (now seconds : ℕ) (member : Text) (between : R → R) (r : R)
      → Quiet between
      → (check now member between r).0 ≡ retry_after seconds
      → scores key (check now member between r).1 ≡ select (live w now) (scores key r)
  scores-refused now seconds member between r quiet e =
      ap (scores key) (refused now seconds member between r e).1 ∙ (quiet _).0 ∙ scores-evict now r

  -- The set counts the accepted requests, now and later.
  counts :
      {times : List ℕ} {t : ℕ} {r : R}
      → History times t r
      → (now : ℕ) → t ≤ now
      → count_live w now (scores key r) ≡ count_live w now times
  counts (start empty) now le = ap (count_live w now) empty
  counts (accept {times = times} {t = t} {r = r} {now = n} member between quiet h le new e) now
        later =
      ap (count_live w now) (scores-accepted n member between r quiet new e)
      ∙ count_live-insert w now n _
      ∙ ground (arith, count_live-later w n now (scores key r) later, counts h now (omega arith))
  counts (refuse {times = times} {r = r} {now = n} seconds member between quiet h le e) now later =
      ap (count_live w now) (scores-refused n seconds member between r quiet e)
      ∙ count_live-later w n now (scores key r) later
      ∙ counts h now (omega arith)
  counts (others h same) now later = ap (count_live w now) same ∙ counts h now later
  counts (lapse {times = times} {now = n} h le gone empty) now later =
      ap (count_live w now) empty
      ∙ omega (arith, count_live_mono w n now times later, ap length gone)

  -- After any history of checks of a client that do not overlap, a request of it is accepted exactly
  -- when fewer than `limit` of its accepted requests are younger than the window.
  pub check_and_record-exact :
      (times : List ℕ) (t now : ℕ) (member : Text) (between : R → R) (r : R)
      → History times t r
      → t ≤ now
      → ((check_and_record redis limit window_seconds unit now bucket member between r).0 ≡ allowed)
        ↔ (count_live w now times < limit)
  unfolding check_and_record
  check_and_record-exact times t now member between r h le =
      ground (arith, zcard-evict now r, counts h now le)

  in_window : ℕ → List ℕ → ℕ
  in_window from times = length (select (λ s. ltb from s && leb s (from + w)) times)

  in_window-live :
      (from n : ℕ) (times : List ℕ) → n ≤ from + w → in_window from times ≤ count_live w n times
  unfolding in_window
  in_window-live from n [] h = omega arith
  in_window-live from n (s ∷ times) h = ground (arith, in_window-live from n times h)

  -- However the requests of a client are spread over time, and whatever expires meanwhile: at most
  -- `limit` of them are accepted in any span of the length of the window, provided that its checks do
  -- not overlap. (Between the two pipelines of a check the server may serve every other client, but
  -- not another check of the same one, which could pass the count before the first is recorded.)
  pub within_limit :
      (times : List ℕ) (t : ℕ) (r : R)
      → History times t r
      → (from : ℕ) → length (select (λ s. ltb from s && leb s (from + w)) times) ≤ limit
  unfolding in_window
  within_limit times t r (start empty) from = omega arith
  within_limit times t r (accept {times = before} {r = r'} member between quiet h le new e) from =
      ground (
        arith,
        within_limit before _ _ h from,
        in_window-live from t before,
        accepted t member between r' e,
        counts h t le,
      )
  within_limit times t r (refuse seconds member between quiet h le e) from =
      within_limit times _ _ h from
  within_limit times t r (others h same) from = within_limit times t _ h from
  within_limit times t r (lapse h le gone empty) from = within_limit times _ _ h from

  live_le_limit :
      {times : List ℕ} {t : ℕ} {r : R} → History times t r → count_live w t times ≤ limit
  live_le_limit (start empty) = omega arith
  live_le_limit (accept {times = times} {r = r} {now = n} member between quiet h le new e) =
      ground (arith, accepted n member between r e, counts h n le)
  live_le_limit (refuse {times = times} {t = t} {now = n} seconds member between quiet h le e) =
      omega (arith, live_le_limit h, count_live_mono w t n times le)
  live_le_limit (others h same) = live_le_limit h
  live_le_limit (lapse {times = times} {t = t} {now = n} h le gone empty) =
      omega (arith, live_le_limit h, count_live_mono w t n times le)

  -- When the first of the live scores is dead, one fewer is live.
  one_less :
      (later : ℕ) (xs : List ℕ)
      → 0 < length xs
      → (x : ℕ) → head? xs ≡ some x
      → live w later x ≡ false
      → count_live w later xs < length xs
  one_less later [] pos x e dead = omega (arith, pos)
  one_less later (y ∷ ys) pos x e dead = ground (arith, length-select-le (live w later) ys)

  max_one : (q : ℕ) → max 1 (q + 1) ≡ q + 1
  max_one q = omega arith

  seconds_enough : (a : ℕ) → 0 < unit → a < max 1 (a / unit + 1) * unit
  seconds_enough a pos =
      subst (λ q. a < q * unit) (sym (max_one (a / unit)))
        (omega (arith, lt-div-mul-add {a = a} pos))

  seconds_left-dead :
      (now x : ℕ)
      → 0 < unit
      → live w now x ≡ true
      → live w (now + seconds_left redis limit window_seconds unit now (some x) * unit) x ≡ false
  seconds_left-dead now x pos h =
      ground (arith, seconds_enough (x + w - now) pos, max_one ((x + w - now) / unit))

  told :
      (now seconds : ℕ) (member : Text) (between : R → R) (r : R)
      → Quiet between
      → (check now member between r).0 ≡ retry_after seconds
      → seconds
        ≡ seconds_left redis limit window_seconds unit now
            (head? (select (live w now) (scores key r)))
  unfolding check_and_record
  told now seconds member between r quiet e = ground (
    arith,
    zcard-evict now r,
    laws.smallest key (between (evict redis limit window_seconds unit now key r)),
    (quiet (evict redis limit window_seconds unit now key r)).0,
    scores-evict now r,
  )

  nonempty : (xs : List ℕ) → 0 < length xs → (x : ℕ) × (head? xs ≡ some x)
  nonempty [] h = absurd (omega (arith, h))
  nonempty (x ∷ xs) h = (x, refl)

  head-live :
      (now x : ℕ) (xs : List ℕ) → head? (select (live w now) xs) ≡ some x → live w now x ≡ true
  head-live now x [] e = cc
  head-live now x (y ∷ ys) e = ground (arith, head-live now x ys)

  -- After any history of checks of a client that do not overlap: when it is refused and waits as many
  -- seconds as it was told, sending nothing, it is accepted, whatever the other clients do during its
  -- two checks.
  pub retry_after-suffices :
      (times : List ℕ) (t now seconds : ℕ) (member later_member : Text) (between meanwhile : R → R)
      (r : R)
      → History times t r
      → Quiet between
      → t ≤ now
      → 0 < limit
      → 0 < unit
      → (check_and_record redis limit window_seconds unit now bucket member between r).0
        ≡ retry_after seconds
      → (check_and_record redis limit window_seconds unit
          (now + seconds * unit)
          bucket
          later_member
          meanwhile
          (check_and_record redis limit window_seconds unit now bucket member between r).1).0
        ≡ allowed
  unfolding check_and_record
  retry_after-suffices times t now seconds member later_member between meanwhile r h quiet le
        some_allowed ticking e =
      let alive = select (live w now) (scores key r) in
      let full = refused now seconds member between r e in
      let (x, first_x) = nonempty alive (omega (arith, full.0, some_allowed)) in
      let wait =
        told now seconds member between r quiet e
        ∙ ap (seconds_left redis limit window_seconds unit now) first_x in
      ground (
        arith,
        zcard-evict (now + seconds * unit) (check now member between r).1,
        ap (count_live w (now + seconds * unit))
            (scores-refused now seconds member between r quiet e),
        one_less (now + seconds * unit) alive (omega (arith, full.0, some_allowed)) x first_x (
            subst (λ q. live w (now + q * unit) x ≡ false) (sym wait)
              (seconds_left-dead now x ticking (head-live now x (scores key r) first_x))),
        counts h now le,
        live_le_limit h,
        count_live_mono w t now times le,
      )
