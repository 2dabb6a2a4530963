-- ===== src/Transactions/Hashes.antt =====
-- `canonical_scoped_payload_hash` and `chain_record_hash` of src/phigraph/core_v3/transactions.py.
use phigraph.Prelude.{String, ◌≡◌, ap, Option}
use phigraph.Python.{Runtime}
use phigraph.Python.Values.{
  Json, str, obj, Fields, end, field, put, without, without-put, of_opt_str,
}

unfoldable pub canonical_scoped_payload_hash : Runtime → Fields → String
canonical_scoped_payload_hash runtime r = runtime.sha256 (runtime.dumps (obj (without "_chain" r)))

-- The dict whose canonical JSON is hashed into a chain.
abbrev pub chained_content : Option String → String → Fields → Json
chained_content previous_hash collection r = obj (
    field "previous_hash" (of_opt_str previous_hash)
      (field "collection" (str collection) (field "record" (obj (without "_chain" r)) end)))

unfoldable pub chain_record_hash : Runtime → Option String → String → Fields → String
chain_record_hash runtime previous_hash collection r =
    runtime.sha256 (runtime.dumps (chained_content previous_hash collection r))

-- Neither hash sees the chain metadata that is stored in the record.
pub canonical_scoped_payload_hash-put :
    (runtime : Runtime) (r : Fields) (v : Json)
    → canonical_scoped_payload_hash runtime (put "_chain" v r)
      ≡ canonical_scoped_payload_hash runtime r
unfolding canonical_scoped_payload_hash
canonical_scoped_payload_hash-put runtime r v =
    ap (λ d. runtime.sha256 (runtime.dumps (obj d))) (without-put "_chain" v r)

pub chain_record_hash-put :
    (runtime : Runtime) (previous_hash : Option String) (collection : String) (r : Fields)
    (v : Json)
    → chain_record_hash runtime previous_hash collection (put "_chain" v r)
      ≡ chain_record_hash runtime previous_hash collection r
unfolding chain_record_hash
chain_record_hash-put runtime previous_hash collection r v =
    ap
      (λ d. runtime.sha256 (
        runtime.dumps (
          obj (
            field "previous_hash" (of_opt_str previous_hash)
              (field "collection" (str collection) (field "record" (obj d) end))))))
      (without-put "_chain" v r)
