-- ===== src/Samples.antt =====
-- A concrete host for the tests: every text has one hash, JSON text stands for the empty object, and
-- every date is the same instant.
use Prim.Native.String
use blackcell.Prelude.{String, none, some, true, false, pos}
use blackcell.Json.{obj, end}
use blackcell.Host.{Host}

abbrev pub hash : String
hash = "00112233445566778899aabbccddeeff00112233445566778899aabbccddeeff"

abbrev pub digest : String
digest = "sha256:00112233445566778899aabbccddeeff00112233445566778899aabbccddeeff"

abbrev pub commit : String
commit = "00112233445566778899aabbccddeeff00112233"

abbrev pub host : Host
host = record {
  canonical_json = λ v. "{}";
  json_loads = λ text. some (obj end);
  sha256 = λ text. hash;
  isoformat = λ instant. "1970-01-01T00:00:00+00:00";
  isoformat_at = λ time. "1970-01-01T00:00:00+00:00";
  fromisoformat = λ text. some (record { instant = 1000; offset = pos 0; is_aware = true });
  ascii_of = λ c. none;
  is_lowered = λ c. true;
  is_space = λ c. false;
  join_path = λ root name. String.◌++◌ root name;
}
