-- ===== src/EvidenceLedger/Registers.antt =====
-- The registrations of `EvidenceLedger` (src/phigraph/core_v3/ledger.py): evidence, claims, actions,
-- policy decisions and outcomes, and the signature of an item of evidence.
use phigraph.Prelude.{String, Bool, Option, none, some, List, [], ◌∷◌, ◌==◌, if◌then◌else◌}
use phigraph.Python.{Runtime}
use phigraph.Python.Values.{Json, null, str, obj, Fields, end, field, get, put}
use phigraph.Python.Errors.{Result, ok, err, key_error, attribute_error, type_error, ◌>>=◌}
use phigraph.EvidenceLedger.Models.{
  Evidence, Claim, ActionProposal, PolicyDecision, Outcome, evidence_to_dict, claim_to_dict,
  action_to_dict, policy_decision_to_dict, outcome_to_dict,
}
use phigraph.EvidenceLedger.Chain.{
  Payload, collections, read_all, rows_at, hash_payload, append, item_at, same_id, get_in,
}

-- What the ledger is constructed with, and the library functions it calls: `hmac key text` is
-- `hmac.new(key, text.encode(), hashlib.sha256).hexdigest()`.
pub record EvidenceLedger : Type 0 where
  pub runtime : Runtime
  pub hmac : String → String → String
  pub compare_digest : String → String → Result Bool
  pub signing_key : Option String

-- The tenant and the project of a call.
pub record CallScope : Type 0 where
  pub tenant_id : String
  pub project_id : String

unfoldable pub sign_with : EvidenceLedger → Option String → String → Option String
sign_with ledger none content_hash = none
sign_with ledger (some key) content_hash =
    if key == "" then none else some (ledger.hmac key content_hash)

-- `sign_hash`
unfoldable pub sign_hash : EvidenceLedger → String → Option String
unfolding sign_with
sign_hash ledger content_hash = sign_with ledger ledger.signing_key content_hash

-- `_scope_metadata`
abbrev pub scope_metadata : Fields → CallScope → Fields
scope_metadata metadata s =
    put "project_id" (str s.project_id) (put "tenant_id" (str s.tenant_id) metadata)

-- `row["scope"] = {...}`
abbrev pub with_scope : CallScope → Fields → Fields
with_scope s row =
    put "scope"
      (obj (field "tenant_id" (str s.tenant_id) (field "project_id" (str s.project_id) end))) row

-- What a registration returns in place of the stored row.
abbrev pub returned : {A : Type 0} → A → Result Fields × Payload → Result A × Payload
returned a (err e, file) = (err e, file)
returned a (ok row, file) = (ok a, file)

abbrev pub hash_of_content : EvidenceLedger → Evidence → String
hash_of_content ledger evidence = elim (evidence.content_hash) [
  | none ↦ hash_payload (ledger.runtime) (obj (evidence.payload))
  | some h ↦ h
]

-- `if signature: ...`
abbrev pub with_signature : Option String → Fields → Fields
with_signature none metadata = metadata
with_signature (some s) metadata =
    if s == ""
    then metadata
    else put "signature_alg" (str "hmac-sha256") (put "signature" (str s) metadata)

-- The evidence that is stored: hashed, with its scope and signature in its metadata.
unfoldable pub sealed_evidence : EvidenceLedger → Evidence → CallScope → Evidence
unfolding hash_payload sign_hash
sealed_evidence ledger evidence s =
    let content_hash = hash_of_content ledger evidence in
    record evidence {
      content_hash = some content_hash;
      metadata =
          with_signature (sign_hash ledger content_hash) (scope_metadata (evidence.metadata) s);
    }

unfoldable pub register_evidence :
    EvidenceLedger → Evidence → CallScope → Payload → Result Evidence × Payload
unfolding sealed_evidence evidence_to_dict append
register_evidence ledger evidence s file =
    let stored = sealed_evidence ledger evidence s in
    returned stored
      (append (ledger.runtime) "evidence" (evidence_to_dict stored) "evidence_id" file)

unfoldable pub register_claim :
    EvidenceLedger → Claim → CallScope → Payload → Result Claim × Payload
unfolding claim_to_dict append
register_claim ledger claim s file =
    let stored = record claim { metadata = scope_metadata (claim.metadata) s } in
    returned stored (append (ledger.runtime) "claims" (claim_to_dict stored) "claim_id" file)

unfoldable pub register_action :
    EvidenceLedger → ActionProposal → CallScope → Payload → Result ActionProposal × Payload
unfolding action_to_dict append
register_action ledger action s file =
    returned action
      (append (ledger.runtime) "actions" (with_scope s (action_to_dict action)) "action_id" file)

unfoldable pub record_policy_decision :
    EvidenceLedger → PolicyDecision → CallScope → Payload → Result PolicyDecision × Payload
unfolding policy_decision_to_dict append
record_policy_decision ledger decision s file = returned decision (
    append (ledger.runtime) "policy_decisions" (with_scope s (policy_decision_to_dict decision))
      "decision_id" file)

unfoldable pub record_outcome :
    EvidenceLedger → Outcome → CallScope → Payload → Result Outcome × Payload
unfolding outcome_to_dict append
record_outcome ledger outcome s file =
    returned outcome (
      append (ledger.runtime) "outcomes" (with_scope s (outcome_to_dict outcome)) "outcome_id" file)

-- `next((item for item in rows if item[key] == id), None)`
unfoldable pub find_by_id : String → Json → List Fields → Result (Option Fields)
find_by_id key id [] = ok none
find_by_id key id (item ∷ rows) =
    let rest = find_by_id key id rows in
    item_at item key >>= λ other. if same_id other id then ok (some item) else rest

abbrev pub known : Option Fields → Result Fields
known none = err (key_error "Unknown")
known (some row) = ok row

unfoldable pub get_record : String → String → String → Payload → Result Fields
get_record collection record_id id_key file = do
  rows ← rows_at (read_all collections file) collection
  row ← find_by_id id_key (str record_id) rows
  known row

abbrev pub get_claim : String → Payload → Result Fields
get_claim claim_id file = get_record "claims" claim_id "claim_id" file

-- `compare_digest(signature, expected or "")`, where an argument may be no text.
abbrev pub compare_signature : EvidenceLedger → Json → Option String → Result (Option Bool)
compare_signature ledger (str s) none = ledger.compare_digest s "" >>= λ b. ok (some b)
compare_signature ledger (str s) (some e) = ledger.compare_digest s e >>= λ b. ok (some b)
compare_signature ledger _ expected = err (type_error "unsupported operand types")

-- `self.sign_hash(row["content_hash"])`: an empty key signs nothing, whatever the hash is.
abbrev pub expected_signature : EvidenceLedger → String → Json → Result (Option String)
expected_signature ledger key (str h) = ok (sign_with ledger (some key) h)
expected_signature ledger key _ = if key == "" then ok none else err (attribute_error "encode")

abbrev pub check_signature :
    EvidenceLedger → Fields → Option Json → Option String → Result (Option Bool)
check_signature ledger row none key = ok none
check_signature ledger row (some null) key = ok none
check_signature ledger row (some signature) none = ok none
check_signature ledger row (some signature) (some key) = do
  content_hash ← item_at row "content_hash"
  expected ← expected_signature ledger key content_hash
  compare_signature ledger signature expected

unfoldable pub verify_evidence_signature : EvidenceLedger → String → Payload → Result (Option Bool)
unfolding get_record
verify_evidence_signature ledger evidence_id file = do
  row ← get_record "evidence" evidence_id "evidence_id" file
  signature ← get_in (get "metadata" row) "signature"
  check_signature ledger row signature (ledger.signing_key)
