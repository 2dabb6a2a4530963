-- ===== src/Idempotency.antt =====
-- src/phigraph/core_v3/idempotency.py: responses kept by key, so that a request is executed once.
-- The store's lock is held throughout each operation.
pub mod Once
mod Tests
use Prim.Native.String.{◌++◌ as text_append}
use phigraph.Prelude.{String, Bool, true, false, Option, none, some, List, ◌==◌, if◌then◌else◌}
use phigraph.Python.{Runtime}
use phigraph.Python.Values.{Json, Fields}
use phigraph.Python.Errors.{Result, ok, err, value_error}
use phigraph.Python.Dict.{Dict, lookup, insert}

-- A row of the file.
pub record StoredResponse : Type 0 where
  pub request_hash : String
  pub response : Fields

abbrev pub Rows : Type 0
Rows = Dict StoredResponse

-- `request_hash`
unfoldable pub request_hash_of : Runtime → Json → String
request_hash_of runtime payload = runtime.sha256 (runtime.dumps payload)

abbrev pub with_colon : String → String → String
with_colon a b = text_append a (text_append ":" b)

-- `scoped_key`
unfoldable pub scoped_key : String → String → String → String → String
scoped_key operation_name tenant_id project_id external_key =
    with_colon operation_name (with_colon tenant_id (with_colon project_id external_key))

-- The stored response of a request with the same hash.
abbrev pub reuse : StoredResponse → String → Result Fields
reuse row request_hash =
    if row.request_hash == request_hash
    then ok (row.response)
    else err (value_error "idempotency_key_reused_with_different_payload")

abbrev pub stored_or_none : Option StoredResponse → String → Result (Option Fields)
stored_or_none none request_hash = ok none
stored_or_none (some row) request_hash = elim (reuse row request_hash) [
  | err e ↦ err e
  | ok r ↦ ok (some r)
]

-- `get`
unfoldable pub get_response : String → String → Rows → Result (Option Fields)
get_response key request_hash rows = stored_or_none (lookup key rows) request_hash

-- `put`
unfoldable pub put_response : String → String → Fields → Rows → Rows
put_response key request_hash response rows =
    insert key (record { request_hash = request_hash; response = response }) rows

module _ {ℓ} {S : Type ℓ} where
  -- The operation's result on its own state, and what is written of it.
  abbrev pub executed : String → String → Rows → Result Fields × S → Result Fields × (Rows × S)
  executed key request_hash rows (err e, s) = (err e, (rows, s))
  executed key request_hash rows (ok response, s) =
      (ok response, (put_response key request_hash response rows, s))

  abbrev pub run_on :
      Option StoredResponse
      → String
      → String
      → (S → Result Fields × S)
      → Rows
      → S
      → Result Fields × (Rows × S)
  run_on (some row) key request_hash operation rows s = (reuse row request_hash, (rows, s))
  run_on none key request_hash operation rows s = executed key request_hash rows (operation s)

  -- `run`, with the state that the operation works on.
  unfoldable pub run :
      String → String → (S → Result Fields × S) → Rows → S → Result Fields × (Rows × S)
  unfolding put_response
  run key request_hash operation rows s = run_on (lookup key rows) key request_hash operation rows s
