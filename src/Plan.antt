-- ===== src/Plan.antt =====
-- crates/sql-engine/src/plan.rs: the typed plans that the policy layer and the executor accept.
use mongres.Prelude.{ℕ, String, Bool, List, Option}
use mongres.Prelude.Int.{ℤ}
use mongres.F64.{F64}
use mongres.Schema.{FieldPath}

-- `SqlValue`
pub data SqlValue : Type 0 where
  null : SqlValue
  boolean : Bool → SqlValue
  integer : ℤ → SqlValue
  floating_point : F64 → SqlValue
  string placeholder : String → SqlValue

-- `ComparisonOperator`
pub data ComparisonOperator : Type 0 where
  equal not_equal greater_than greater_than_or_equal less_than less_than_or_equal :
      ComparisonOperator

-- `Predicate`; `Vec<Predicate>` is `Predicates`.
mutual
  pub data Predicate : Type 0 where
    compare : FieldPath → ComparisonOperator → SqlValue → Predicate
    in_list : FieldPath → List SqlValue → Bool → Predicate
    is_null : FieldPath → Bool → Predicate
    and or : Predicates → Predicate

  pub data Predicates : Type 0 where
    nil : Predicates
    cons : Predicate → Predicates → Predicates

-- `ProjectedField`
pub record ProjectedField : Type 0 where
  pub path : FieldPath
  pub alias : Option String

-- `Projection`
pub data Projection : Type 0 where
  all : Projection
  fields : List ProjectedField → Projection

-- `SelectPlan`
pub record SelectPlan : Type 0 where
  pub collection : String
  pub projection : Projection
  pub filter : Option Predicate
  pub limit : Option ℕ

-- `InsertPlan`
pub record InsertPlan : Type 0 where
  pub collection : String
  pub columns : List FieldPath
  pub rows : List (List SqlValue)

-- `AssignmentPlan`
pub record AssignmentPlan : Type 0 where
  pub path : FieldPath
  pub value : SqlValue

-- `UpdatePlan`
pub record UpdatePlan : Type 0 where
  pub collection : String
  pub assignments : List AssignmentPlan
  pub filter : Predicate

-- `DeletePlan`
pub record DeletePlan : Type 0 where
  pub collection : String
  pub filter : Predicate

-- `StatementPlan`
pub data StatementPlan : Type 0 where
  select : SelectPlan → StatementPlan
  insert : InsertPlan → StatementPlan
  update : UpdatePlan → StatementPlan
  delete : DeletePlan → StatementPlan

-- `collection_from_plan` of crates/proxy/src/lib.rs
unfoldable pub collection_from_plan : StatementPlan → String
collection_from_plan (select plan) = plan.collection
collection_from_plan (insert plan) = plan.collection
collection_from_plan (update plan) = plan.collection
collection_from_plan (delete plan) = plan.collection
