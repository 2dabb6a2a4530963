-- ===== src/RateLimiter.antt =====
-- src/phigraph/core_v3/rate_limit.py: the sliding window rate limiter. Times are numbers of ticks,
-- so that sums and comparisons are exact; one thread, since the limiter's lock is held throughout.
pub mod Windows
pub mod Reference
mod Tests
use phigraph.Prelude.{
  ℕ, ◌+◌, ◌-◌, String, Bool, true, false, Option, none, some, List, [], ◌∷◌, ◌++◌, leb, length,
  if◌then◌else◌,
}
use Prim.Native.Nat.{◌*◌, ◌/◌}
use phigraph.Python.Errors.{Result, ok, err, index_error}
use phigraph.Python.Dict.{Dict, lookup, insert}

-- `SlidingWindowRateLimiter`: its settings, and the times of the accepted calls that are kept for
-- each key, the oldest first.
pub record SlidingWindowRateLimiter : Type 0 where
  pub limit : ℕ
  pub window_seconds : ℕ
  pub ticks_per_second : ℕ
  pub events : Dict (List ℕ)

-- The decision, the calls that are left, and the seconds to wait.
pub record Decision : Type 0 where
  pub allowed : Bool
  pub remaining : ℕ
  pub retry_after : ℕ

abbrev pub window : SlidingWindowRateLimiter → ℕ
window limiter = limiter.window_seconds * limiter.ticks_per_second

-- `self._events[key]` of the `defaultdict`
abbrev pub or_empty : Option (List ℕ) → List ℕ
or_empty none = []
or_empty (some events) = events

abbrev pub events_of : SlidingWindowRateLimiter → String → List ℕ
events_of limiter key = or_empty (lookup key limiter.events)

-- `while events and events[0] <= cutoff: events.popleft()`, with the window on the other side.
unfoldable pub expire : ℕ → ℕ → List ℕ → List ℕ
expire span timestamp [] = []
expire span timestamp (event ∷ events) =
    let rest = expire span timestamp events in
    if leb (event + span) timestamp then rest else event ∷ events

-- `max(1, int(self.window_seconds - (timestamp - events[0])))`
abbrev pub seconds_left : SlidingWindowRateLimiter → ℕ → ℕ → ℕ
seconds_left limiter timestamp event =
    let seconds = (event + window limiter - timestamp) / limiter.ticks_per_second in
    if leb 1 seconds then seconds else 1

abbrev pub refused : SlidingWindowRateLimiter → ℕ → List ℕ → Result Decision
refused limiter timestamp [] = err (index_error "deque index out of range")
refused limiter timestamp (event ∷ events) =
    ok (record {
      allowed = false;
      remaining = 0;
      retry_after = seconds_left limiter timestamp event;
    })

abbrev pub kept : SlidingWindowRateLimiter → String → List ℕ → SlidingWindowRateLimiter
kept limiter key events = record limiter { events = insert key events limiter.events }

-- The decision on the events that have not expired.
unfoldable pub decide :
    SlidingWindowRateLimiter → String → ℕ → List ℕ → Result Decision × SlidingWindowRateLimiter
decide limiter key timestamp events =
    if leb (limiter.limit) (length events)
    then (refused limiter timestamp events, kept limiter key events)
    else (
      ok (record {
        allowed = true;
        remaining = limiter.limit - (length events + 1);
        retry_after = 0;
      }),
      kept limiter key (events ++ timestamp ∷ []),
    )

-- `check`
unfoldable pub check :
    SlidingWindowRateLimiter → String → ℕ → Result Decision × SlidingWindowRateLimiter
unfolding expire decide
check limiter key timestamp =
    decide limiter key timestamp (expire (window limiter) timestamp (events_of limiter key))
