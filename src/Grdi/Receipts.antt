-- ===== src/Grdi/Receipts.antt =====
-- `ReceiptSigner` of src/phigraph/core_v3/receipts.py. The key is the text of its bytes.
use phigraph.Prelude.{
  String, ◌≡◌, refl, ap, Bool, true, false, not, ◌||◌, Option, none, some, ◌==◌, eq_iff,
  if◌then◌else◌,
}
use phigraph.Python.Values.{
  Json, str, obj, Fields, end, field, get, put, without, without-put, eq_opt_str, get-put_self,
}
use phigraph.Python.Errors.{Result, ok, err, attribute_error, ◌>>=◌}
use phigraph.Transactions.Collections.{str_value}
use phigraph.Grdi.Models.{Host}

pub record ReceiptSigner : Type 0 where
  pub key : String
  pub key_id : String

-- `canonical`, before it is encoded
unfoldable pub canonical : Host → Fields → String
canonical host receipt = host.runtime.dumps (obj (without "signature" receipt))

abbrev pub signature_of : ReceiptSigner → String → Json
signature_of signer digest = obj (
    field "alg" (str "hmac-sha256")
      (field "key_id" (str signer.key_id) (field "value" (str digest) end)))

unfoldable pub sign : Host → ReceiptSigner → Fields → Fields
sign host signer receipt =
    put "signature" (signature_of signer (host.hmac signer.key (canonical host receipt))) receipt

-- `d.get(name, {})`; a value of another kind has no `get`.
abbrev pub dict_or_empty : Option Json → Result Fields
dict_or_empty none = ok end
dict_or_empty (some (obj inner)) = ok inner
dict_or_empty (some _) = err (attribute_error "get")

abbrev pub dict_at : String → Fields → Result Fields
dict_at name d = dict_or_empty (get name d)

-- `str(signature.get("value", ""))`
abbrev pub text_or_empty : Host → Option Json → String
text_or_empty host none = ""
text_or_empty host (some v) = str_value host.runtime v

unfoldable pub verify : Host → ReceiptSigner → Fields → Result Bool
verify host signer receipt = do
  signature ← dict_at "signature" receipt
  if not (eq_opt_str (get "alg" signature) (some "hmac-sha256"))
        || not (eq_opt_str (get "key_id" signature) (some signer.key_id))
      then ok false
      else host.compare_digest (text_or_empty host (get "value" signature))
          (host.hmac signer.key (canonical host receipt))

canonical-put :
    (host : Host) (receipt : Fields) (v : Json)
    → canonical host (put "signature" v receipt) ≡ canonical host receipt
unfolding canonical
canonical-put host receipt v =
    ap (λ d. host.runtime.dumps (obj d)) (without-put "signature" v receipt)

-- What was signed verifies with the same signer, where the comparison of two equal digests holds.
pub verify-sign :
    (host : Host) (signer : ReceiptSigner) (receipt : Fields)
    → ((key text : String)
        → host.compare_digest (host.hmac key text) (host.hmac key text) ≡ ok true)
    → verify host signer (sign host signer receipt) ≡ ok true
unfolding verify sign get str_value
verify-sign host signer receipt equal =
    let digest = host.hmac signer.key (canonical host receipt) in
    let same : signer.key_id == signer.key_id ≡ true = (eq_iff _ _).1 refl in
    let stored = get-put_self "signature" (signature_of signer digest) receipt in
    rw (stored, same)
      (rw (canonical-put host receipt (signature_of signer digest)) (equal signer.key _))
