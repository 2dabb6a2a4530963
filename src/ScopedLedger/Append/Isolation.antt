-- ===== src/ScopedLedger/Append/Isolation.antt =====
-- An append leaves alone every other key and every other scope.
use phigraph.Prelude.{String, ◌≡◌, ◌≢◌, refl, ap, Bool, true, false, Option, none, some, nul_free}
use phigraph.Python.{Runtime}
use phigraph.Python.Values.{Fields}
use phigraph.Python.Errors.{Result, ok, err}
use phigraph.Python.Dict.{lookup, lookup-insert_ne}
use phigraph.ScopedLedger.Rows.{StoredRow, Head, scoped_key}
use phigraph.ScopedLedger.Rows.Laws.{scoped_key-inj}
use phigraph.ScopedLedger.Store.{StoreState}
use phigraph.ScopedLedger.Append.{
  AppendRequest, store_linked, store_standalone, append_linked, append_standalone, append_at,
  json_append,
}
use phigraph.ScopedLedger.Append.Replay.{request_key}
use phigraph.ScopedLedger.Query.{get_row, found}

module _ (runtime : Runtime) (now : String) (q : AppendRequest) (r : Fields) (j : String)
    (other : request_key q ≢ j) where
  lookup-store_linked :
      (head : Head) (built : Result StoredRow) (state : StoreState)
      → lookup j (store_linked now q head built state).1.records ≡ lookup j state.records
  unfolding store_linked
  lookup-store_linked head (err x) state = refl
  lookup-store_linked head (ok row) state = lookup-insert_ne _ j row state.records other

  lookup-store_standalone :
      (built : Result StoredRow) (state : StoreState)
      → lookup j (store_standalone q built state).1.records ≡ lookup j state.records
  unfolding store_standalone
  lookup-store_standalone (err x) state = refl
  lookup-store_standalone (ok row) state = lookup-insert_ne _ j row state.records other

  lookup-append_at :
      (linked : Bool) (state : StoreState) (o : Option StoredRow)
      → lookup j (append_at runtime now q linked r state o).1.records ≡ lookup j state.records
  unfolding append_at append_linked append_standalone
  lookup-append_at linked state (some row) = refl
  lookup-append_at true state none = lookup-store_linked _ _ _
  lookup-append_at false state none = lookup-store_standalone _ state

-- An append changes no record of another tenant or project, under whatever collection and key:
-- neither when it succeeds nor when it raises. The scopes and the collections hold no NUL.
pub get_row-json_append_other :
    (runtime : Runtime) (now : String) (q : AppendRequest) (linked : Bool) (r : Fields)
    (state : StoreState) (t p c k : String)
    → nul_free q.tenant_id ≡ true
    → nul_free q.project_id ≡ true
    → nul_free q.collection ≡ true
    → nul_free t ≡ true
    → nul_free p ≡ true
    → nul_free c ≡ true
    → ¬ ((q.tenant_id ≡ t) × (q.project_id ≡ p) × (q.collection ≡ c) × (q.canonical_key ≡ k))
    → get_row t p c k (json_append runtime now q linked r state).1 ≡ get_row t p c k state
unfolding get_row json_append
get_row-json_append_other runtime now q linked r state t p c k ht hp hc ht' hp' hc' ne = ap found (
    lookup-append_at runtime now q r (scoped_key t p c k)
      (λ e. ne (
        scoped_key-inj q.tenant_id q.project_id q.collection q.canonical_key t p c k ht ht' hp hp'
          hc hc' e))
      linked state _)
