-- ===== src/Proxy/Wire.antt =====
-- What the proxy answers, in crates/proxy/src/lib.rs: the fields of a result, the values of its rows,
-- and the tag of a command. A BSON value is seen through the cases that the code tells apart.
use mongres.Prelude.{
  ℕ, ◌-◌, ◌^◌, String, Bool, true, false, List, [], ◌∷◌, Option, none, some, ltb, if◌then◌else◌,
}
use mongres.Prelude.Int.{ℤ}
use mongres.F64.{F64}
use mongres.Bson.{BsonApi}
use mongres.Executor.Outcome.{WriteOutcome}
use mongres.Plan.{StatementPlan, select, insert, update, delete}
use mongres.Catalog.{SqlType}
use mongres.Common.{Result, ok, err}
use mongres.Proxy.PgType.{PgType}

-- `WireField`
pub record WireField : Type 0 where
  pub name : String
  pub sql_type : SqlType

-- `WireField::new`
abbrev pub wire_field : String → SqlType → WireField
wire_field name sql_type = record { name = name; sql_type = sql_type }

-- `WireValue`
pub data WireValue : Type 0 where
  null : WireValue
  boolean : Bool → WireValue
  integer : ℤ → WireValue
  floating_point : F64 → WireValue
  text : String → WireValue

-- `CommandResult`
pub record CommandResult : Type 0 where
  pub tag : String
  pub rows : ℕ

-- `ExecutionResult`
pub data ExecutionResult : Type 0 where
  query : List WireField → List (List WireValue) → ExecutionResult
  command : CommandResult → ExecutionResult

-- `ExecutionResult::fields`
unfoldable pub fields : ExecutionResult → List WireField
fields (ExecutionResult.query fs rows) = fs
fields (ExecutionResult.command c) = []

-- `usize::try_from(count).unwrap_or(usize::MAX)` on a machine with 64 bits
abbrev pub saturated : ℕ → ℕ
saturated n = if ltb n (2 ^ 64) then n else 2 ^ 64 - 1

-- `command_result`; the panic on a SELECT is an error with its text.
unfoldable pub command_result : StatementPlan → WriteOutcome → Result String CommandResult
command_result (insert plan) outcome =
    ok (record { tag = "INSERT 0"; rows = saturated outcome.inserted })
command_result (update plan) outcome =
    ok (record { tag = "UPDATE"; rows = saturated outcome.matched })
command_result (delete plan) outcome =
    ok (record { tag = "DELETE"; rows = saturated outcome.deleted })
command_result (select plan) outcome = err "SELECT is not a command result"

-- `postgres_type`
unfoldable pub postgres_type : SqlType → PgType
postgres_type SqlType.boolean = PgType.bool
postgres_type SqlType.big_int = PgType.int8
postgres_type SqlType.double_precision = PgType.float8
postgres_type SqlType.text = PgType.text
postgres_type SqlType.timestamp_with_time_zone = PgType.timestamptz
postgres_type SqlType.jsonb = PgType.jsonb

-- The cases of `bson_to_wire_value`: the identifier by its hexadecimal digits, the time by its text,
-- any other value by its relaxed extended JSON and by the text that it prints.
pub data BsonCase : Type 0 where
  null undefined : BsonCase
  boolean : Bool → BsonCase
  int32 int64 : ℤ → BsonCase
  double : F64 → BsonCase
  string object_id date_time : String → BsonCase
  other : String → String → BsonCase

abbrev is_jsonb : SqlType → Bool
is_jsonb SqlType.jsonb = true
is_jsonb t = false

-- `bson_to_wire_value`
unfoldable pub bson_to_wire_value : BsonCase → SqlType → WireValue
bson_to_wire_value BsonCase.null t = WireValue.null
bson_to_wire_value BsonCase.undefined t = WireValue.null
bson_to_wire_value (BsonCase.boolean b) t = WireValue.boolean b
bson_to_wire_value (BsonCase.int32 n) t = WireValue.integer n
bson_to_wire_value (BsonCase.int64 n) t = WireValue.integer n
bson_to_wire_value (BsonCase.double x) t = WireValue.floating_point x
bson_to_wire_value (BsonCase.string s) t = WireValue.text s
bson_to_wire_value (BsonCase.object_id hex) t = WireValue.text hex
bson_to_wire_value (BsonCase.date_time s) t = WireValue.text s
bson_to_wire_value (BsonCase.other json printed) t =
    if is_jsonb t then WireValue.text json else WireValue.text printed

module _ (api : BsonApi) where
  open api use {Bson, Document}

  -- `value_at_path`: `get_document` of every segment but the last, then `get`
  unfoldable pub value_at_path : Document → List String → Option Bson
  value_at_path d [] = none
  value_at_path d (last ∷ []) = api.get last d
  value_at_path d (segment ∷ next ∷ path) = elim (api.get segment d) [
    | none ↦ none
    | some b ↦ elim (api.as_document b) as (λ _. Option Bson) [
      | none ↦ none
      | some nested ↦ value_at_path nested (next ∷ path)
    ]
  ]

  -- `value_from_document`, with the case of a value
  unfoldable pub value_from_document :
      (Bson → BsonCase) → Document → List String → SqlType → WireValue
  unfolding value_at_path bson_to_wire_value
  value_from_document view d path t = elim (value_at_path d path) [
    | none ↦ WireValue.null
    | some b ↦ bson_to_wire_value (view b) t
  ]
