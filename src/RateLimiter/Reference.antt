-- ===== src/RateLimiter/Reference.antt =====
-- The limiter's decision (src/phigraph/core_v3/rate_limit.py) is that of counting the events inside
-- the window.
use phigraph.Prelude.{ℕ, ◌+◌, ◌≤◌, Bool, List, [], ◌∷◌, ltb, All}

-- The event has not left the window.
abbrev pub is_inside : ℕ → ℕ → ℕ → Bool
is_inside span t e = ltb t (e + span)

-- The events stand in the order of their times.
abbrev pub IsAscending : List ℕ → Type 0
IsAscending [] = Unit
IsAscending (e ∷ es) = All (λ f. e ≤ f) es × IsAscending es
