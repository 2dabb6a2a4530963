-- ===== src/EvidenceLedger/Chain.antt =====
-- The collection chains of `EvidenceLedger` (src/phigraph/core_v3/ledger.py): hashing, appending,
-- rebuilding and verifying, over the file that the JSON backend keeps.
use phigraph.Prelude.{
  ℕ, ◌+◌, String, Bool, true, false, not, Option, none, some, List, [], ◌∷◌, ◌++◌, ◌==◌, eqb,
  if◌then◌else◌,
}
use phigraph.Python.{Runtime}
use phigraph.Python.Values.{
  Json, null, bool, num, other_num, str, obj, Fields, end, field, get, put, without, eq_opt_str,
  of_opt_str,
}
use phigraph.Python.Errors.{Result, ok, err, key_error, value_error, attribute_error, ◌>>=◌}
use phigraph.Python.Dict.{Dict, lookup, insert}

-- `EvidenceLedger.COLLECTIONS`
abbrev pub collections : List String
collections =
    "claims" ∷ "evidence" ∷ "verifications" ∷ "actions" ∷ "policy_decisions" ∷ "outcomes"
    ∷ "decision_envelopes" ∷ "authority_decisions" ∷ "execution_requests" ∷ "gateway_decisions"
    ∷ "gateway_decision_events" ∷ "shadow_execution_receipts" ∷ "shadow_outcomes" ∷ "replay_reports"
    ∷ "historical_comparisons" ∷ []

-- What the backend keeps: the rows of each collection.
abbrev pub Payload : Type 0
Payload = Dict (List Fields)

-- `payload.setdefault(collection, [])`
abbrev pub set_default : Option (List Fields) → String → Payload → Payload
set_default none collection payload = insert collection [] payload
set_default (some rows) collection payload = payload

-- `read_all` of the JSON backend: every collection is there.
unfoldable pub read_all : List String → Payload → Payload
read_all [] payload = payload
read_all (c ∷ cs) payload = read_all cs (set_default (lookup c payload) c payload)

-- `payload[collection]`
abbrev pub present : String → Option (List Fields) → Result (List Fields)
present collection none = err (key_error collection)
present collection (some rows) = ok rows

abbrev pub rows_at : Payload → String → Result (List Fields)
rows_at payload collection = present collection (lookup collection payload)

-- `payload.get(collection, [])`
abbrev pub or_no_rows : Option (List Fields) → List Fields
or_no_rows none = []
or_no_rows (some rows) = rows

abbrev pub rows_or_none : Payload → String → List Fields
rows_or_none payload collection = or_no_rows (lookup collection payload)

-- `hash_payload`
unfoldable pub hash_payload : Runtime → Json → String
hash_payload runtime payload = runtime.sha256 (runtime.dumps payload)

-- The hash of a row after its predecessor; a row's own link is not hashed.
unfoldable pub chain_hash : Runtime → Json → String → Fields → String
chain_hash runtime previous_hash collection row = hash_payload runtime (
    obj (
      field "previous_hash" previous_hash
        (field "collection" (str collection) (field "record" (obj (without "_chain" row)) end))))

-- The value stored under `_chain`.
abbrev pub link : Json → String → Json
link previous_hash hash =
    obj (
      field "previous_hash" previous_hash
        (field "hash" (str hash) (field "alg" (str "sha256") end)))

-- The loop of `_rechain_payload` over one collection.
unfoldable pub rebuild_rows : Runtime → String → Option String → List Fields → List Fields
rebuild_rows runtime collection previous [] = []
rebuild_rows runtime collection previous (row ∷ rows) =
    let hash = chain_hash runtime (of_opt_str previous) collection row in
    put "_chain" (link (of_opt_str previous) hash) (without "_chain" row)
    ∷ rebuild_rows runtime collection (some hash) rows

-- `_rechain_payload`
unfoldable pub rechain_payload : Runtime → List String → Payload → Payload
rechain_payload runtime [] payload = payload
rechain_payload runtime (c ∷ cs) payload =
    rechain_payload runtime cs
      (insert c (rebuild_rows runtime c none (rows_or_none payload c)) payload)

-- `d.get(name)` of a value that may be no dict, and may be missing.
abbrev pub get_in : Option Json → String → Result (Option Json)
get_in none name = ok none
get_in (some (obj d)) name = ok (get name d)
get_in (some _) name = err (attribute_error "get")

abbrev pub or_null : Option Json → Json
or_null none = null
or_null (some v) = v

-- `payload[collection][-1].get("_chain", {}).get("hash") if payload[collection] else None`
unfoldable pub last_hash : List Fields → Result Json
last_hash [] = ok null
last_hash (row ∷ []) = do hash ← get_in (get "_chain" row) "hash"; ok (or_null hash)
last_hash (row ∷ next ∷ rows) = last_hash (next ∷ rows)

-- `item[key]`
abbrev pub required : String → Option Json → Result Json
required key none = err (key_error key)
required key (some v) = ok v

abbrev pub item_at : Fields → String → Result Json
item_at item key = required key (get key item)

-- `==` on ids. Ids are texts; a list or a dict as an id counts as different from any other.
abbrev pub same_id : Json → Json → Bool
same_id null null = true
same_id (bool true) (bool true) = true
same_id (bool false) (bool false) = true
same_id (num m) (num n) = eqb m n
same_id (other_num s) (other_num t) = s == t
same_id (str s) (str t) = s == t
same_id _ _ = false

-- `any(item[unique_key] == row[unique_key] for item in rows)`, for the id of the row.
unfoldable pub any_has_id : String → Json → List Fields → Result Bool
any_has_id key id [] = ok false
any_has_id key id (item ∷ rows) =
    let rest = any_has_id key id rows in
    item_at item key >>= λ other. if same_id other id then ok true else rest

-- The id is read only where there is a row to compare it with.
abbrev pub is_duplicate : String → Fields → List Fields → Result Bool
is_duplicate key row [] = ok false
is_duplicate key row (item ∷ rows) = do
  _ ← item_at item key
  id ← item_at row key
  any_has_id key id (item ∷ rows)

-- The row with its link.
abbrev pub linked : Runtime → Json → String → Fields → Fields
linked runtime previous_hash collection row =
    put "_chain" (link previous_hash (chain_hash runtime previous_hash collection row)) row

-- The new file, or the exception that leaves it alone.
abbrev pub saved : {A : Type 0} → Payload → Result (A × Payload) → Result A × Payload
saved file (err e) = (err e, file)
saved file (ok (a, file')) = (ok a, file')

-- The row at the end of its collection's chain, and the file with it.
unfoldable pub chained :
    Runtime → String → Fields → Payload → List Fields → Result (Fields × Payload)
chained runtime collection row payload rows = do
  previous_hash ← last_hash rows
  let stored = linked runtime previous_hash collection row
  ok (stored, insert collection (rows ++ stored ∷ []) payload)

unfoldable pub append_row : Runtime → String → Fields → String → Payload → Result (Fields × Payload)
append_row runtime collection row unique_key payload = do
  rows ← rows_at payload collection
  duplicate ← is_duplicate unique_key row rows
  if duplicate then err (value_error "Duplicate") else chained runtime collection row payload rows

-- `_append`
unfoldable pub append : Runtime → String → Fields → String → Payload → Result Fields × Payload
unfolding append_row
append runtime collection row unique_key file =
    saved file (append_row runtime collection row unique_key (read_all collections file))

-- What `verify_chain` returns.
pub data ChainReport : Type 0 where
  valid : ℕ → Dict (Option String) → ChainReport
  invalid : ℕ → String → String → ChainReport

-- Where the walk over one collection ends: at its head, or at a row with a reason.
pub data Walk : Type 0 where
  head : ℕ → Option String → Walk
  broken : ℕ → String → Walk

-- `chain is None`
abbrev pub is_none : Option Json → Bool
is_none none = true
is_none (some null) = true
is_none _ = false

-- The walk over the rows of one collection.
unfoldable pub walk : Runtime → String → ℕ → Option String → List Fields → Result Walk
walk runtime collection checked previous [] = ok (head checked previous)
walk runtime collection checked previous (row ∷ rows) =
    let expected = chain_hash runtime (of_opt_str previous) collection row in
    let rest = walk runtime collection (checked + 1) (some expected) rows in
    let chain = get "_chain" row in
    if is_none chain
    then ok (broken checked "missing_chain")
    else (get_in chain "previous_hash" >>= λ before.
        if not (eq_opt_str before previous)
        then ok (broken checked "link_mismatch")
        else (get_in chain "hash" >>= λ hash.
            if not (eq_opt_str hash (some expected))
            then ok (broken checked "hash_mismatch")
            else rest))

-- The loop of `verify_chain` over the collections.
unfoldable pub verify_collections :
    Runtime → List String → ℕ → Dict (Option String) → Payload → Result ChainReport
verify_collections runtime [] checked heads payload = ok (valid checked heads)
verify_collections runtime (c ∷ cs) checked heads payload = rows_at payload c >>= λ rows.
    walk runtime c checked none rows >>= λ w. elim w [
      | broken n reason ↦ ok (invalid n reason c)
      | head n last ↦ verify_collections runtime cs n (insert c last heads) payload
    ]

-- `verify_chain`
unfoldable pub verify_chain : Runtime → Payload → Result ChainReport
verify_chain runtime file = verify_collections runtime collections 0 [] (read_all collections file)

-- `repair_chain`
unfoldable pub repair_chain : Runtime → Payload → Result ChainReport × Payload
repair_chain runtime file =
    let file' = rechain_payload runtime collections (read_all collections file) in
    (verify_chain runtime file', file')
