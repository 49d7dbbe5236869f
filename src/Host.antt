-- ===== src/Host.antt =====
-- What the code calls of Python's standard library beyond the language: hashing and JSON text,
-- ISO dates, the Unicode tables behind `int` and `str.lower`, and `pathlib`.
use Prim.Native.String
use blackcell.Prelude.{ℕ, ℤ, String, Option, Bool}
use blackcell.Json.{Json}

-- A `datetime`: its instant in microseconds, the offset of its time zone, and whether it has one.
pub record DateTime : Type 0 where
  pub instant : ℕ
  pub offset : ℤ
  pub is_aware : Bool

pub record Host : Type 0 where
  -- `json.dumps(..., sort_keys=True)` as `canonical_json` calls it, and `json.loads`
  pub canonical_json : Json → String
  pub json_loads : String → Option Json
  -- `hashlib.sha256(text.encode("utf-8")).hexdigest()`
  pub sha256 : String → String
  pub isoformat : ℕ → String
  -- the same of any `datetime`, with the offset it has
  pub isoformat_at : DateTime → String
  pub fromisoformat : String → Option DateTime
  -- what `int(text, 16)` reads a code point above 127 as: a digit or a blank in ASCII
  pub ascii_of : ℕ → Option ℕ
  -- whether `str.lower` leaves a code point above 127 as it is
  pub is_lowered : ℕ → Bool
  -- whether `str.strip` removes a code point above 127
  pub is_space : ℕ → Bool
  -- `str(Path(root) / name)`
  pub join_path : String → String → String

-- `json_digest`
unfoldable pub json_digest : Host → Json → String
json_digest h v = String.◌++◌ "sha256:" (h.sha256 (h.canonical_json v))
