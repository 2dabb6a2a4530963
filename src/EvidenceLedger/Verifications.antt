-- ===== src/EvidenceLedger/Verifications.antt =====
-- `record_verification` of src/phigraph/core_v3/ledger.py: the verification is stored, and the claim
-- that it is about takes its result and its evidence.
use phigraph.Prelude.{
  String, Bool, true, false, not, Option, none, some, List, [], ◌∷◌, ◌++◌, filter, contains,
  if◌then◌else◌,
}
use phigraph.Prelude.Order.{str_order}
use phigraph.Prelude.Sort.{sort_by}
use phigraph.Python.{Runtime}
use phigraph.Python.Values.{Json, str, arr, obj, Items, nil, cons, Fields, get, put}
use phigraph.Python.Errors.{
  Result, ok, err, value_error, key_error, type_error, raise_if, ◌>>=◌, ◌>>◌,
}
use phigraph.Python.Dict.{insert}
use phigraph.EvidenceLedger.Models.{Verification, claim_status_value, texts, verification_to_dict}
use phigraph.EvidenceLedger.Chain.{
  Payload, collections, read_all, rows_at, rows_or_none, item_at, same_id, any_has_id,
  rechain_payload,
}
use phigraph.EvidenceLedger.Registers.{EvidenceLedger, CallScope, scope_metadata, find_by_id}

-- `{item["evidence_id"] for item in rows}`: the ids, of which a set refuses lists and dicts.
abbrev pub hashable : Json → Result Json
hashable (arr _) = err (type_error "unhashable")
hashable (obj _) = err (type_error "unhashable")
hashable v = ok v

unfoldable pub ids_of : String → List Fields → Result (List Json)
ids_of key [] = ok []
ids_of key (item ∷ rows) =
    let rest = ids_of key rows in
    item_at item key >>= λ id. hashable id >>= λ h. rest >>= λ ids. ok (h ∷ ids)

unfoldable pub has_id : List Json → String → Bool
has_id [] id = false
has_id (other ∷ ids) id = let rest = has_id ids id in if same_id other (str id) then true else rest

-- `set(verification.evidence_ids) - known_evidence`
abbrev pub missing_ids : List Json → List String → List String
missing_ids known wanted = filter (λ id. not (has_id known id)) wanted

abbrev pub is_empty : {A : Type 0} → List A → Bool
is_empty [] = true
is_empty (x ∷ xs) = false

-- The texts of a JSON list. A claim's `evidence_ids` is a list of texts: other values are not
-- followed further than a `TypeError`.
unfoldable pub read_texts : Items → Result (List String)
read_texts nil = ok []
read_texts (cons (str s) items) = let rest = read_texts items in rest >>= λ ss. ok (s ∷ ss)
read_texts (cons v items) = err (type_error "evidence_ids")

-- `claim.get("evidence_ids", [])`
abbrev pub listed : Option Json → Result (List String)
listed none = ok []
listed (some (arr items)) = read_texts items
listed (some v) = err (type_error "evidence_ids")

-- `set(...)`: each text once.
unfoldable pub unique : List String → List String
unique [] = []
unique (s ∷ ss) = let rest = unique ss in if contains rest s then rest else s ∷ rest

-- `sorted(set(xs) | set(ys))`
abbrev pub sorted_union : List String → List String → List String
sorted_union xs ys = sort_by str_order (λ s. s) (unique (xs ++ ys))

-- The claim with the verification's result, and its evidence besides its own.
unfoldable pub verified_claim : Verification → Fields → Result Fields
unfolding read_texts unique texts
verified_claim v claim = do
  old ← listed (get "evidence_ids" claim)
  ok (
      put "evidence_ids" (arr (texts (sorted_union old (v.evidence_ids))))
        (put "status" (str (claim_status_value (v.verdict))) claim))

abbrev pub is_same : Result Json → Json → Bool
is_same (err e) id = false
is_same (ok other) id = same_id other id

-- The rows with the first one of the id replaced.
unfoldable pub replace_first : String → Json → Fields → List Fields → List Fields
replace_first key id new [] = []
replace_first key id new (item ∷ rows) =
    let rest = replace_first key id new rows in
    if is_same (item_at item key) id then new ∷ rows else item ∷ rest

abbrev pub known_claim : Option Fields → Result Fields
known_claim none = err (key_error "Unknown claim")
known_claim (some claim) = ok claim

-- The file with the verification and the changed claim, before its chains are rebuilt.
abbrev pub with_verification : Verification → Fields → Payload → Payload
with_verification v claim payload =
    insert "claims"
      (replace_first "claim_id" (str v.claim_id) claim (rows_or_none payload "claims"))
      (insert "verifications" (rows_or_none payload "verifications" ++ verification_to_dict v ∷ [])
        payload)

-- The checks, and the claim as it is after the verification.
unfoldable pub verification_checked : Verification → Payload → Result Fields
verification_checked v payload = do
  claims ← rows_at payload "claims"
  found ← find_by_id "claim_id" (str v.claim_id) claims
  claim ← known_claim found
  evidence ← rows_at payload "evidence"
  known ← ids_of "evidence_id" evidence
  raise_if (not (is_empty (missing_ids known (v.evidence_ids)))) (key_error "Unknown evidence")
  verifications ← rows_at payload "verifications"
  again ← any_has_id "verification_id" (str v.verification_id) verifications
  raise_if again (value_error "Duplicate verification_id")
  verified_claim v claim

-- The file that is written.
unfoldable pub verification_written : Runtime → Verification → Payload → Result Payload
unfolding verification_checked
verification_written runtime v payload = do
  claim ← verification_checked v payload
  ok (rechain_payload runtime collections (with_verification v claim payload))

abbrev pub written : {A : Type 0} → A → Payload → Result Payload → Result A × Payload
written a file (err e) = (err e, file)
written a file (ok file') = (ok a, file')

unfoldable pub record_verification :
    EvidenceLedger → Verification → CallScope → Payload → Result Verification × Payload
unfolding verification_written
record_verification ledger verification s file =
    let stored = record verification { metadata = scope_metadata (verification.metadata) s } in
    written stored file (verification_written (ledger.runtime) stored (read_all collections file))
