-- ===== src/RateLimiter/Windows.antt =====
-- No window of time has more accepted calls of a key than the limit
-- (src/phigraph/core_v3/rate_limit.py).
use phigraph.Prelude.{
  ℕ, zero, suc, ◌+◌, ◌-◌, ◌≤◌, ◌<◌, String, ◌≡◌, refl, subst, sym, ap, ◌∙◌, Bool, true, false,
  Option, none, some, List, [], ◌∷◌, ◌++◌, ◌⊎◌, inl, inr, arith, ◌==◌, eq_iff, leb, leb_iff, length,
  All, All-imp, Bool-cases, if◌then◌else◌,
}
use phigraph.Python.Errors.{Result, ok, err}
use phigraph.Python.Dict.{lookup, lookup-insert}
use phigraph.RateLimiter.{
  SlidingWindowRateLimiter, Decision, window, events_of, expire, kept, refused, decide, check,
}

-- A call: its key and its time.
abbrev pub Call : Type 0
Call = String × ℕ

-- Whether a check accepted.
abbrev pub accepts : Result Decision → Bool
accepts (err e) = false
accepts (ok d) = d.allowed

-- The limiter after a sequence of calls, and the times of a key's accepted calls, the last one first.
unfoldable pub run_calls :
    String → List Call → SlidingWindowRateLimiter → List ℕ → SlidingWindowRateLimiter × List ℕ
run_calls key [] limiter log = (limiter, log)
run_calls key ((k, t) ∷ calls) limiter log =
    let (answer, limiter') = check limiter k t in
    run_calls key calls limiter'
      (if k == key then (if accepts answer then t ∷ log else log) else log)

-- The times of the calls do not decrease, from `now` on.
abbrev pub IsOrdered : ℕ → List Call → Type 0
IsOrdered now [] = Unit
IsOrdered now ((k, t) ∷ calls) = (now ≤ t) × IsOrdered t calls

abbrev pub nth : ℕ → List ℕ → Option ℕ
nth n [] = none
nth zero (x ∷ xs) = some x
nth (suc n) (x ∷ xs) = nth n xs

-- Each accepted call is a window or more after the one that was accepted `limit` calls before it.
abbrev pub IsSpaced : ℕ → ℕ → List ℕ → Type 0
IsSpaced limit span [] = Unit
IsSpaced limit span (t ∷ log) =
    ((a : ℕ) → nth (limit - 1) log ≡ some a → a + span ≤ t) × IsSpaced limit span log

-- The events put before the older ones, the last one first.
abbrev pub onto : List ℕ → List ℕ → List ℕ
onto [] old = old
onto (e ∷ es) old = onto es (e ∷ old)

onto-append : (es old : List ℕ) (t : ℕ) → onto (es ++ t ∷ []) old ≡ t ∷ onto es old
onto-append [] old t = refl
onto-append (e ∷ es) old t = onto-append es (e ∷ old) t

-- What the kept events of a key say of its accepted calls: the others have left the window.
pub record Tracks (span now : ℕ) (events log : List ℕ) : Type 0 where
  pub old : List ℕ
  pub log_is : log ≡ onto events old
  pub expired : All (λ e. e + span ≤ now) old

Tracks-expire :
    (span now t : ℕ) (events old log : List ℕ)
    → log ≡ onto events old
    → All (λ e. e + span ≤ t) old
    → Tracks span t (expire span t events) log
unfolding expire
Tracks-expire span now t [] old log same h = record { old = old; log_is = same; expired = h }
Tracks-expire span now t (e ∷ es) old log same h = elim (Bool-cases (leb (e + span) t)) [
  | inr inside ↦ rw inside (record { old = old; log_is = same; expired = h })
  | inl outside ↦
      rw outside
        (Tracks-expire span now t es (e ∷ old) log same ((leb_iff (e + span) t).0 outside, h))
]

nth-onto :
    (n k : ℕ) (events old : List ℕ) → n ≡ length events + k → nth n (onto events old) ≡ nth k old
nth-onto n k [] old h = let same : n ≡ k = omega (arith, h) in rw same refl
nth-onto n k (e ∷ es) old h = nth-onto n (suc k) es (e ∷ old) (omega (arith, h))

All-nth : (P : ℕ → Type 0) (k : ℕ) (xs : List ℕ) (a : ℕ) → All P xs → nth k xs ≡ some a → P a
All-nth P k [] a h e = cc
All-nth P zero (x ∷ xs) a h e = let same : x ≡ a = cc in rw (← same) h.0
All-nth P (suc k) (x ∷ xs) a h e = All-nth P k xs a h.1 e

-- The two outcomes of a check, with the events that the key is left with.
pub check-cases :
    (limiter : SlidingWindowRateLimiter) (key : String) (t : ℕ)
    → (let events = expire (window limiter) t (events_of limiter key) in
        ((accepts (check limiter key t).0 ≡ true)
          × (length events < limiter.limit)
          × ((check limiter key t).1 ≡ kept limiter key (events ++ t ∷ [])))
        ⊎ ((accepts (check limiter key t).0 ≡ false)
            × (limiter.limit ≤ length events)
            × ((check limiter key t).1 ≡ kept limiter key events)))
unfolding check decide
check-cases limiter key t =
    let events = expire (window limiter) t (events_of limiter key) in
    elim (Bool-cases (leb (limiter.limit) (length events))) [
      | inr room ↦ inl (rw room refl, ground arith, rw room refl)
      | inl full ↦ inr (rw full (not_accepted limiter t events), ground arith, rw full refl)
    ]
  where
    not_accepted :
        (limiter : SlidingWindowRateLimiter) (t : ℕ) (events : List ℕ)
        → accepts (refused limiter t events) ≡ false
    not_accepted limiter t [] = refl
    not_accepted limiter t (e ∷ es) = refl

events_of-kept :
    (limiter : SlidingWindowRateLimiter) (k key : String) (events : List ℕ)
    → (k == key) ≡ true
    → events_of (kept limiter k events) key ≡ events
events_of-kept limiter k key events h = rw (lookup-insert, h) refl

events_of-kept_ne :
    (limiter : SlidingWindowRateLimiter) (k key : String) (events : List ℕ)
    → (k == key) ≡ false
    → events_of (kept limiter k events) key ≡ events_of limiter key
events_of-kept_ne limiter k key events h = rw (lookup-insert, h) refl

-- Time passes.
Tracks-later :
    (span now t : ℕ) (events log : List ℕ)
    → now ≤ t
    → Tracks span now events log
    → Tracks span t events log
Tracks-later span now t events log later h = record {
  old = h.old;
  log_is = h.log_is;
  expired = All-imp (λ e (gone : e + span ≤ now). omega (arith, gone, later)) (h.old) (h.expired);
}

-- An accepted call is spaced from the one `limit` calls before it.
IsSpaced-accepted :
    (limit span t : ℕ) (events log : List ℕ)
    → Tracks span t events log
    → length events < limit
    → IsSpaced limit span log
    → IsSpaced limit span (t ∷ log)
IsSpaced-accepted limit span t events log tracks room spaced = (
  (λ a e.
      let shifted : nth (limit - 1) (onto events (tracks.old))
          ≡ nth (limit - 1 - length events) (tracks.old) =
        nth-onto (limit - 1) (limit - 1 - length events) events (tracks.old)
          (omega (arith, room)) in
      All-nth (λ e. e + span ≤ t) _ (tracks.old) a (tracks.expired)
        (sym shifted ∙ ap (nth (limit - 1)) (sym (tracks.log_is)) ∙ e)),
  spaced,
)

Tracks-accepted :
    (span t : ℕ) (events log : List ℕ)
    → Tracks span t events log
    → Tracks span t (events ++ t ∷ []) (t ∷ log)
Tracks-accepted span t events log h = record {
  old = h.old;
  log_is = ap (◌∷◌ t) (h.log_is) ∙ sym (onto-append events (h.old) t);
  expired = h.expired;
}

run_calls-cons :
    (key k : String) (t : ℕ) (calls : List Call) (limiter limiter' : SlidingWindowRateLimiter)
    (log log' : List ℕ)
    → (check limiter k t).1 ≡ limiter'
    → (if k == key then (if accepts (check limiter k t).0 then t ∷ log else log) else log) ≡ log'
    → run_calls key calls limiter' log' ≡ run_calls key ((k, t) ∷ calls) limiter log
unfolding run_calls
run_calls-cons key k t calls limiter limiter' log log' one two = rw (one, two) refl

IsSpaced-from :
    (key : String) (calls : List Call) (limiter : SlidingWindowRateLimiter) (now : ℕ) (log : List ℕ)
    → IsOrdered now calls
    → Tracks (window limiter) now (events_of limiter key) log
    → IsSpaced (limiter.limit) (window limiter) log
    → IsSpaced (limiter.limit) (window limiter) (run_calls key calls limiter log).1
unfolding run_calls
IsSpaced-from key [] limiter now log ordered tracks spaced = spaced
IsSpaced-from key ((k, t) ∷ calls) limiter now log ordered tracks spaced =
    elim (Bool-cases (k == key)) [
      | inr other ↦
          let later =
            Tracks-later (window limiter) now t (events_of limiter key) log (ordered.0) tracks in
          let next = λ (events : List ℕ).
            IsSpaced-from key calls (kept limiter k events) t log (ordered.1)
              (rw (events_of-kept_ne limiter k key events other) later) spaced in
          elim (check-cases limiter k t) [
            | inl (yes_accepted, room, left) ↦
                subst (λ r. IsSpaced (limiter.limit) (window limiter) r.1)
                  (run_calls-cons key k t calls limiter _ log log left (rw other refl)) (next _)
            | inr (not_accepted, full, left) ↦
                subst (λ r. IsSpaced (limiter.limit) (window limiter) r.1)
                  (run_calls-cons key k t calls limiter _ log log left (rw other refl)) (next _)
          ]
      | inl same ↦
          let later =
            Tracks-later (window limiter) now t (events_of limiter key) log (ordered.0) tracks in
          let current : Tracks (window limiter) t (expire (window limiter) t (events_of limiter k))
              log =
            rw ((eq_iff k key).0 same) (
              Tracks-expire (window limiter) now t (events_of limiter key) (later.old) log
                (later.log_is) (later.expired)) in
          elim (check-cases limiter k t) [
            | inl (yes_accepted, room, left) ↦
                subst (λ r. IsSpaced (limiter.limit) (window limiter) r.1)
                  (run_calls-cons key k t calls limiter _ log (t ∷ log) left
                    (rw (same, yes_accepted) refl))
                  (IsSpaced-from key calls _ t (t ∷ log) (ordered.1)
                    (rw (events_of-kept limiter k key _ same) (Tracks-accepted _ t _ log current))
                    (IsSpaced-accepted (limiter.limit) (window limiter) t _ log current room
                      spaced))
            | inr (not_accepted, full, left) ↦
                subst (λ r. IsSpaced (limiter.limit) (window limiter) r.1)
                  (run_calls-cons key k t calls limiter _ log log left
                    (rw (same, not_accepted) refl))
                  (IsSpaced-from key calls _ t log (ordered.1)
                    (rw (events_of-kept limiter k key _ same) current) spaced)
          ]
    ]

-- From a limiter without events, over any calls of any keys whose times do not decrease: of the
-- accepted calls of a key, each stands a whole window after the one accepted `limit` calls before it.
pub run_calls-IsSpaced :
    (key : String) (calls : List Call) (limiter : SlidingWindowRateLimiter)
    → limiter.events ≡ []
    → IsOrdered 0 calls
    → IsSpaced (limiter.limit) (window limiter) (run_calls key calls limiter []).1
unfolding lookup
run_calls-IsSpaced key calls limiter none_yet ordered =
    IsSpaced-from key calls limiter 0 [] ordered
      (rw none_yet (record { old = []; log_is = refl; expired = tt })) tt
