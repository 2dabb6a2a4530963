-- ===== src/Python.antt =====
-- What the program uses of Python: JSON values, `dict`, exceptions, and the library functions
-- that stay abstract (`hashlib.sha256`, `json.dumps`, `str`).
pub mod Values
pub mod Errors
pub mod Dict
use phigraph.Prelude.{String}
use Values.{Json}

-- Functions of the standard library that the program only calls.
-- `sha256 text` is `hashlib.sha256(text.encode("utf-8")).hexdigest()`;
-- `dumps v` is `json.dumps(v, sort_keys=True, separators=(",", ":"), default=str)`;
-- `str_of v` is `str(v)` where `v` is no text.
pub record Runtime : Type 0 where
  pub sha256 : String → String
  pub dumps : Json → String
  pub str_of : Json → String
