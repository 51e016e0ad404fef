-- ===== src/Schema/Sample.antt =====
-- `SampleValue` and `SampleDocument` of crates/schema-discovery/src/lib.rs. A document is a
-- `BTreeMap<String, SampleValue>`: the list of its entries in the order of iteration.
use mongres.Prelude.{String, Bool}
use mongres.Prelude.Int.{ℤ}
use mongres.F64.{F64}
use mongres.Schema.Observed.{ObservedType, ObservedShape}

mutual
  pub data SampleValue : Type 0 where
    null : SampleValue
    boolean : Bool → SampleValue
    integer : ℤ → SampleValue
    floating_point : F64 → SampleValue
    string date_time object_id : String → SampleValue
    document : SampleDocument → SampleValue
    array : SampleValues → SampleValue

  pub data SampleDocument : Type 0 where
    end : SampleDocument
    entry : String → SampleValue → SampleDocument → SampleDocument

  pub data SampleValues : Type 0 where
    nil : SampleValues
    cons : SampleValue → SampleValues → SampleValues

-- `SampleValue::observed_type`
unfoldable pub observed_type : SampleValue → ObservedType
observed_type SampleValue.null = ObservedType.null
observed_type (boolean b) = ObservedType.boolean
observed_type (integer n) = ObservedType.integer
observed_type (floating_point x) = ObservedType.floating_point
observed_type (string s) = ObservedType.string
observed_type (date_time s) = ObservedType.date_time
observed_type (object_id s) = ObservedType.object_id
observed_type (document d) = ObservedType.document
observed_type (array vs) = ObservedType.array

-- `SampleValue::observed_shape`
unfoldable pub observed_shape : SampleValue → ObservedShape
observed_shape (document d) = ObservedShape.document
observed_shape (array vs) = ObservedShape.array
observed_shape SampleValue.null = ObservedShape.scalar
observed_shape (boolean b) = ObservedShape.scalar
observed_shape (integer n) = ObservedShape.scalar
observed_shape (floating_point x) = ObservedShape.scalar
observed_shape (string s) = ObservedShape.scalar
observed_shape (date_time s) = ObservedShape.scalar
observed_shape (object_id s) = ObservedShape.scalar
