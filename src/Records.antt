-- ===== src/Records.antt =====
-- `ExtractedRecord` of db_collector_os/adapters/base.py: what an adapter makes of a page. Python does
-- not hold an adapter to the types of the fields, so a field whose type is checked later is any value.
use db_collector_os.Prelude.{String, Option, none, some, Bool, List}
use db_collector_os.Models.Json.{Value, str, dict, Fields, end}

pub record ExtractedRecord : Type 0 where
  pub name : Value
  pub entity_type : Value
  pub canonical_url : Value
  pub domain : Value
  pub address : Value
  pub telephone : Value
  pub external_id : Value
  pub confidence : Value
  pub fields : Value
  pub missing_required : List String
  pub skip : Bool
  pub skip_reason : Option String

-- A field that is None or a text, as it is after validation.
abbrev pub text : Value → Option String
text (str s) = some s
text _ = none

-- `fields`, a dict after validation
abbrev pub entries : Value → Fields
entries (dict d) = d
entries _ = end
