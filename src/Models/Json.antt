-- ===== src/Models/Json.antt =====
-- The values of Python's `json`, and of the other objects that the code can meet where it looks
-- for JSON. A dict is the list of its items in insertion order. A float is its value in
-- thousandths; the code compares floats with thresholds of at most three decimals.
pub mod Lookup
use db_collector_os.Prelude.{ℕ, String, Bool, ◌==◌, if◌then◌else◌, Option, none, some}

-- `negsuc n` is -(n + 1).
pub data ℤ : Type 0 where
  pos negsuc : ℕ → ℤ

mutual
  pub data Value : Type 0 where
    null : Value
    bool : Bool → Value
    int : ℤ → Value
    float : ℤ → Value
    str : String → Value
    list : Items → Value
    dict : Fields → Value
    object : Value

  pub data Items : Type 0 where
    nil : Items
    cons : Value → Items → Items

  pub data Fields : Type 0 where
    end : Fields
    field : String → Value → Fields → Fields

-- d.get(key)
abbrev pub get_field : String → Fields → Option Value
get_field key end = none
get_field key (field k v rest) = if k == key then some v else get_field key rest

-- d[key] = value: a key that is there keeps its place
abbrev pub set_field : String → Value → Fields → Fields
set_field key v end = field key v end
set_field key v (field k w rest) =
    if k == key then field k v rest else field k w (set_field key v rest)
