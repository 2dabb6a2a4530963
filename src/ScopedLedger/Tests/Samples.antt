-- ===== src/ScopedLedger/Tests/Samples.antt =====
-- The inputs of the tests: a runtime that can be computed with, records, requests and an engine.
use Prim.Native.String.{◌++◌ as text_append}
use phigraph.Prelude.{String, refl, true, false, none, some, List, [], ◌∷◌}
use phigraph.Python.{Runtime}
use phigraph.Python.Values.{
  Json, Items, Fields, null, bool, num, other_num, str, arr, obj, nil, cons, end, field,
}
use phigraph.Python.Errors.{Result, ok, err}
use phigraph.Python.Dict.{lookup}
use phigraph.Transactions.Locks.{LockRef, chain, canonical}
use phigraph.ScopedLedger.Store.{StoreState, empty_state}
use phigraph.ScopedLedger.Append.{AppendRequest, json_append}
use phigraph.ScopedLedger.Cas.{CasRequest}
use phigraph.ScopedLedger.Query.{rows_of}
use phigraph.ScopedLedger.Engine.{Engine, idle}
use phigraph.ScopedLedger.Invariant.{IsWellFormed}

-- An injective enough stand-in for `json.dumps`: names and texts one after the other.
unfoldable mutual
  pub show_json : Json → String
  show_json null = "null"
  show_json (bool true) = "true"
  show_json (bool false) = "false"
  show_json (num n) = "number"
  show_json (other_num s) = s
  show_json (str s) = text_append "'" (text_append s "'")
  show_json (arr items) = text_append "[" (show_items items)
  show_json (obj fields) = text_append "{" (show_fields fields)

  pub show_items : Items → String
  show_items nil = "]"
  show_items (cons v rest) = text_append (show_json v) (text_append "," (show_items rest))

  pub show_fields : Fields → String
  show_fields end = "}"
  show_fields (field k v rest) =
      text_append k
        (text_append ":" (text_append (show_json v) (text_append "," (show_fields rest))))

abbrev pub runtime : Runtime
runtime = record { sha256 = text_append "sha256 of "; dumps = show_json; str_of = show_json }

abbrev pub envelope_request : AppendRequest
envelope_request = record {
  tenant_id = "tenant";
  project_id = "project";
  collection = "decision_envelopes";
  canonical_key = "e1";
}

abbrev pub envelope : Fields
envelope = field "envelope_id" (str "e1") (field "title" (str "first") end)

abbrev pub changed_envelope : Fields
changed_envelope = field "envelope_id" (str "e1") (field "title" (str "second") end)

abbrev pub claim_request : AppendRequest
claim_request = record {
  tenant_id = "tenant";
  project_id = "project";
  collection = "claims";
  canonical_key = "c1";
}

abbrev pub claim : Fields
claim = field "claim_id" (str "c1") (field "status" (str "open") end)

abbrev pub closed_claim : Fields
closed_claim = field "claim_id" (str "c1") (field "status" (str "closed") end)

abbrev pub claim_cas : CasRequest
claim_cas = record {
  tenant_id = "tenant";
  project_id = "project";
  collection = "claims";
  canonical_key = "c1";
  expected_version = some 1;
  expected_payload_hash = none;
}

abbrev pub locks : List LockRef
locks =
    record {
      tenant_id = "tenant";
      project_id = "project";
      collection = "claims";
      kind = canonical;
      canonical_key = "c1";
    }
    ∷ record {
      tenant_id = "tenant";
      project_id = "project";
      collection = "decision_envelopes";
      kind = chain;
      canonical_key = "";
    }
    ∷ record {
      tenant_id = "tenant";
      project_id = "project";
      collection = "decision_envelopes";
      kind = canonical;
      canonical_key = "e1";
    }
    ∷ []

abbrev pub engine : Engine
engine = record { multiprocess = false; file = record { records = []; heads = [] }; tls = idle }

-- What a result holds, or a value beside it.
abbrev pub value_or : {A : Type 0} → A → Result A → A
value_or a (ok b) = b
value_or a (err e) = a

-- The store after an envelope, and after a claim too.
abbrev pub one_record : StoreState
one_record = (json_append runtime "now" envelope_request true envelope empty_state).1

abbrev pub two_records : StoreState
two_records = (json_append runtime "now" claim_request false claim one_record).1

pub empty-IsWellFormed : (r : Runtime) → IsWellFormed r empty_state
unfolding rows_of lookup
empty-IsWellFormed r = record {
  unique_rows = tt;
  unique_heads = tt;
  rows = tt;
  heads = tt;
  chains = λ t p c free_t free_p linked. (refl, refl);
}
