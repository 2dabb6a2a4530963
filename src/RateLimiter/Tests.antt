-- ===== src/RateLimiter/Tests.antt =====
-- The rate limiter on concrete calls.
use phigraph.Prelude.{◌≡◌, refl, List, [], ◌∷◌, arith}
use phigraph.RateLimiter.{SlidingWindowRateLimiter, window, check}
use phigraph.RateLimiter.Windows.{Call, IsSpaced, run_calls, run_calls-IsSpaced}

-- Two calls in ten seconds of one tick each.
abbrev limiter : SlidingWindowRateLimiter
limiter = record { limit = 2; window_seconds = 10; ticks_per_second = 1; events = [] }

-- The third call of `a` is refused, the fourth comes when the first has left the window.
abbrev calls : List Call
calls = ("a", 1) ∷ ("a", 4) ∷ ("b", 4) ∷ ("a", 9) ∷ ("a", 11) ∷ []

accepted_calls : (run_calls "a" calls limiter []).1 ≡ 11 ∷ 4 ∷ 1 ∷ []
unfolding run_calls check phigraph.Python.Dict.lookup phigraph.Python.Dict.insert
accepted_calls = refl

run_calls-IsSpaced_example :
    IsSpaced (limiter.limit) (window limiter) (run_calls "a" calls limiter []).1
run_calls-IsSpaced_example =
    run_calls-IsSpaced "a" calls limiter refl
      (omega arith, (omega arith, (omega arith, (omega arith, (omega arith, tt)))))

abbrev busy : SlidingWindowRateLimiter
busy = record {
  limit = 2;
  window_seconds = 10;
  ticks_per_second = 1;
  events = ("a", 1 ∷ 4 ∷ []) ∷ [];
}
