-- ===== src/Idempotency/Tests.antt =====
-- The idempotency store on concrete requests, whose operations count their runs.
use phigraph.Prelude.{ℕ, ◌+◌, ◌≡◌, refl, List, [], ◌∷◌}
use phigraph.Python.Values.{Fields, end, field, num}
use phigraph.Python.Errors.{Result, ok}
use phigraph.Idempotency.{Rows, run}
use phigraph.Idempotency.Once.{Request, run_requests, run_again}

abbrev counting : ℕ → Result Fields × ℕ
counting n = (ok (field "n" (num n) end), n + 1)

abbrev answered : Result Fields × (Rows × ℕ)
answered = run "k" "h" counting [] 0

abbrev others : List (Request ℕ)
others = ("k2", ("h2", counting)) ∷ ("k", ("other", counting)) ∷ []

run_again_example :
    run "k" "h" counting
      (run_requests others answered.1.0 answered.1.1).0
      (run_requests others answered.1.0 answered.1.1).1
    ≡ (ok (field "n" (num 0) end), run_requests others answered.1.0 answered.1.1)
unfolding run phigraph.Python.Dict.lookup
run_again_example =
    run_again "k" "h" counting counting others [] answered.1.0 0 answered.1.1
      (field "n" (num 0) end) refl
