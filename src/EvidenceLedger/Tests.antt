-- ===== src/EvidenceLedger/Tests.antt =====
-- Runs of the evidence ledger on concrete inputs.
use Prim.Native.String.{◌∷◌ as char_cons, [] as no_chars}
use phigraph.Prelude.{
  ℕ, ◌≤◌, String, ◌≡◌, ◌≢◌, refl, ◌⊎◌, Bool, true, false, Option, none, some, List, [], ◌∷◌, ◌++◌,
  map, ◌==◌,
}
use phigraph.Python.{Runtime}
use phigraph.Python.Values.{
  Json, null, bool, num, other_num, str, arr, obj, Fields, end, field, put, of_opt_str,
}
use phigraph.Python.Errors.{Error, Result, ok, err}
use phigraph.Python.Dict.{Dict, insert}
use phigraph.ScopedLedger.Tests.Samples.{runtime}
use phigraph.EvidenceLedger.Models
use phigraph.EvidenceLedger.Models.{Claim, Verification, Evidence, ClaimStatus, claim_to_dict}
use phigraph.EvidenceLedger.Chain.{
  Payload, collections, head, walk, append, ChainReport, valid, invalid, verify_chain, repair_chain,
  rows_or_none, rebuild_rows,
}
use phigraph.EvidenceLedger.Registers.{EvidenceLedger, CallScope, register_claim}
use phigraph.EvidenceLedger.Extensions.{register_scoped_record_once}
use phigraph.EvidenceLedger.Validity.{total}
use phigraph.EvidenceLedger.Runs.{
  Call, claim_call, evidence_call, verification_call, once_call, repair_call, run_calls,
  run_calls-valid,
}
use phigraph.EvidenceLedger.Updates.{repair_chain-valid}
use phigraph.EvidenceLedger.Once.{register_once_again}
use phigraph.EvidenceLedger.Tamper.{hashed_value, hashed_texts, Collides, same_head-same_texts}
use phigraph.EvidenceLedger.Sqlite.{Table, reload, sqlite_write_all, sqlite_read_all}
use phigraph.EvidenceLedger.Sqlite.Conflicts.{stored_verification, two_verifications-raise}
use phigraph.EvidenceLedger.Sqlite.RoundTrip.{sqlite_read_all-write_all}

abbrev ledger : EvidenceLedger
ledger = record {
  runtime = runtime;
  hmac = λ key text. text;
  compare_digest = λ a b. ok (a == b);
  signing_key = some "key";
}

abbrev scope : CallScope
scope = record { tenant_id = "tenant"; project_id = "project" }

abbrev claim : Claim
claim = record {
  claim_id = "c1";
  statement = "water boils";
  claim_type = "fact";
  subject = "water";
  issuer = "me";
  status = Models.proposed;
  confidence = null;
  evidence_ids = [];
  created_at = "t0";
  supersedes = none;
  metadata = end;
}

abbrev evidence : Evidence
evidence = record {
  evidence_id = "e1";
  kind = "log";
  source = "file";
  payload = end;
  status = Models.registered;
  content_hash = none;
  observed_at = "t0";
  metadata = end;
}

abbrev verification : Verification
verification = record {
  verification_id = "v1";
  claim_id = "c1";
  verifier = "you";
  method = "look";
  verdict = Models.verified;
  evidence_ids = "e1" ∷ [];
  rationale = "";
  verified_at = "t1";
  metadata = end;
}

abbrev second_verification : Verification
second_verification = record verification { verification_id = "v2" }

abbrev calls : List Call
calls =
    claim_call claim scope
    ∷ evidence_call evidence scope
    ∷ claim_call claim scope
    ∷ verification_call verification scope
    ∷ once_call "replay_reports" (field "id" (str "r1") end) "id" scope
    ∷ repair_call
    ∷ []

abbrev no_heads : List String → Dict (Option String)
no_heads [] = []
no_heads (c ∷ cs) = (c, none) ∷ no_heads cs

abbrev empty_heads : Dict (Option String)
empty_heads = no_heads collections

-- An empty file is valid.
verify_chain_empty : verify_chain runtime [] ≡ ok (valid 0 empty_heads)
unfolding verify_chain phigraph.EvidenceLedger.Chain.verify_collections phigraph.Python.Dict.lookup
    phigraph.EvidenceLedger.Chain.read_all insert walk
verify_chain_empty = refl

run_calls-valid_example :
    (m : ℕ) × (heads : Dict (Option String)) × (0 ≤ m)
    × (verify_chain runtime (run_calls ledger calls []) ≡ ok (valid m heads))
run_calls-valid_example = run_calls-valid ledger calls [] 0 empty_heads verify_chain_empty

-- A claim's row as it is appended to an empty file.
abbrev claim_file : Payload
claim_file = (register_claim ledger claim scope []).1

abbrev claim_row : Fields
claim_row = claim_to_dict claim

abbrev or_end : Result Fields → Fields
or_end (err e) = end
or_end (ok row) = row

abbrev stored_claim : Fields
stored_claim = or_end (append runtime "claims" claim_row "claim_id" []).0

claim_appended :
    append runtime "claims" claim_row "claim_id" []
    ≡ (ok stored_claim, (append runtime "claims" claim_row "claim_id" []).1)
unfolding append claim_to_dict phigraph.Python.Dict.lookup phigraph.EvidenceLedger.Chain.read_all
    insert phigraph.EvidenceLedger.Chain.chained phigraph.EvidenceLedger.Chain.last_hash
claim_appended = refl

-- A file whose claim has no link.
abbrev unlinked : Payload
unlinked = ("claims", claim_row ∷ []) ∷ []

unlinked_invalid : verify_chain runtime unlinked ≡ ok (invalid 0 "missing_chain" "claims")
unfolding verify_chain claim_to_dict phigraph.EvidenceLedger.Chain.verify_collections
    phigraph.Python.Dict.lookup phigraph.EvidenceLedger.Chain.read_all insert walk
    phigraph.Python.Values.get
unlinked_invalid = refl

repair_chain-valid_example :
    (heads : Dict (Option String)) × ((repair_chain runtime unlinked).0
      ≡ ok (valid (total collections unlinked) heads))
repair_chain-valid_example = repair_chain-valid runtime unlinked

-- A record that is created, and a second one of its id.
abbrev report : Fields
report = field "id" (str "r1") (field "n" (num 1) end)

abbrev other_report : Fields
other_report = field "id" (str "r1") (field "n" (num 2) end)

abbrev pair_or : Result (Fields × Bool) → Fields × Bool
pair_or (err e) = (end, false)
pair_or (ok p) = p

abbrev first_call : Result (Fields × Bool) × Payload
first_call = register_scoped_record_once runtime "replay_reports" report "id" scope []

register_once_again_example :
    register_scoped_record_once runtime "replay_reports" other_report "id" scope (first_call.1)
    ≡ (ok ((pair_or (first_call.0)).0, false), first_call.1)
unfolding register_scoped_record_once phigraph.EvidenceLedger.Extensions.once_row
    phigraph.Python.Values.get phigraph.EvidenceLedger.Extensions.find_scoped
    phigraph.Python.Dict.lookup phigraph.EvidenceLedger.Chain.read_all insert
    phigraph.EvidenceLedger.Chain.chained phigraph.EvidenceLedger.Chain.last_hash
register_once_again_example =
    register_once_again runtime "replay_reports" report other_report (pair_or (first_call.0)).0 "r1"
      "id" scope [] (first_call.1) true refl apart_scope apart_chain refl refl refl
  where
    apart_scope : ◌≢◌ {A = String} "id" "scope"
    apart_scope h = cc

    apart_chain : ◌≢◌ {A = String} "id" "_chain"
    apart_chain h = cc

-- The SQLite backend: two verifications of one claim, read back and written again.
abbrev table : Table
table = (sqlite_write_all runtime (("claims", stored_claim ∷ []) ∷ []) []).1

two_verifications-raise_example :
    (e : Error) × (sqlite_write_all runtime
        ([]
          ++ (
            "verifications",
            []
                ++ stored_verification null verification ∷ []
                ++ stored_verification null second_verification ∷ [],
          )
            ∷ [])
        table
      ≡ (err e, table))
two_verifications-raise_example =
    two_verifications-raise runtime verification second_verification null null [] [] [] [] [] table
      refl

sqlite_read_all-write_all_example :
    rows_or_none (sqlite_read_all collections table) "claims" ≡ map reload (stored_claim ∷ [])
unfolding sqlite_write_all phigraph.Python.Dict.lookup phigraph.EvidenceLedger.Sqlite.record_id_of
    append phigraph.EvidenceLedger.Chain.read_all insert phigraph.EvidenceLedger.Chain.chained
    phigraph.EvidenceLedger.Chain.last_hash put claim_to_dict phigraph.EvidenceLedger.Sqlite.has_key
sqlite_read_all-write_all_example =
    sqlite_read_all-write_all runtime collections (("claims", stored_claim ∷ []) ∷ []) [] table
      "claims" (refl, tt) refl

-- A stand-in for `json.dumps` that keeps only the link.
abbrev dumps_previous : Json → String
dumps_previous (obj (field k (str h) rest)) = char_cons "s" h
dumps_previous v = no_chars

abbrev link_runtime : Runtime
link_runtime = record { sha256 = λ text. text; dumps = dumps_previous; str_of = dumps_previous }

link_read :
    (p q : Option String) (row other : Fields)
    → link_runtime.dumps (hashed_value (of_opt_str p) "claims" row)
      ≡ link_runtime.dumps (hashed_value (of_opt_str q) "claims" other)
    → p ≡ q
link_read none none row other h = refl
link_read (some a) (some b) row other h = cc
link_read none (some b) row other h = cc
link_read (some a) none row other h = cc

abbrev two_rows : List Fields
two_rows = rebuild_rows link_runtime "claims" none (claim_row ∷ report ∷ [])

abbrev other_rows : List Fields
other_rows = rebuild_rows link_runtime "claims" none (claim_row ∷ other_report ∷ [])

same_head-same_texts_example :
    (hashed_texts link_runtime "claims" none two_rows
      ≡ hashed_texts link_runtime "claims" none other_rows)
    ⊎ Collides link_runtime
        (hashed_texts link_runtime "claims" none two_rows)
        (hashed_texts link_runtime "claims" none other_rows)
unfolding rebuild_rows walk phigraph.Python.Values.get put phigraph.Python.Values.without
    claim_to_dict phigraph.EvidenceLedger.Chain.chain_hash
    phigraph.EvidenceLedger.Chain.hash_payload
same_head-same_texts_example =
    same_head-same_texts link_runtime "claims" link_read 2 2 (some "s") two_rows other_rows refl
      refl refl
