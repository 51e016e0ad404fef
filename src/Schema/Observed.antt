-- ===== src/Schema/Observed.antt =====
-- `ObservedType` and `ObservedShape` of crates/schema-discovery/src/lib.rs with their derived orders.
use mongres.Prelude.{ℕ, ◌≡◌, arith}
use mongres.Order.{Ord}
use mongres.Order.Derived.{rank_cmp, rank_cmp-IsTotalOrder}

pub data ObservedType : Type 0 where
  null boolean integer floating_point string date_time object_id document array : ObservedType

abbrev pub type_rank : ObservedType → ℕ
type_rank ObservedType.null = 0
type_rank ObservedType.boolean = 1
type_rank ObservedType.integer = 2
type_rank ObservedType.floating_point = 3
type_rank ObservedType.string = 4
type_rank ObservedType.date_time = 5
type_rank ObservedType.object_id = 6
type_rank ObservedType.document = 7
type_rank ObservedType.array = 8

pub type_rank_injective : (a b : ObservedType) → type_rank a ≡ type_rank b → a ≡ b
type_rank_injective a b h = ground arith

instance abbrev pub type_ord : Ord ObservedType
type_ord = record {
  cmp = rank_cmp type_rank type_rank_injective;
  laws = rank_cmp-IsTotalOrder type_rank type_rank_injective;
}

pub data ObservedShape : Type 0 where
  scalar document array : ObservedShape

abbrev pub shape_rank : ObservedShape → ℕ
shape_rank ObservedShape.scalar = 0
shape_rank ObservedShape.document = 1
shape_rank ObservedShape.array = 2

pub shape_rank_injective : (a b : ObservedShape) → shape_rank a ≡ shape_rank b → a ≡ b
shape_rank_injective a b h = ground arith

instance abbrev pub shape_ord : Ord ObservedShape
shape_ord = record {
  cmp = rank_cmp shape_rank shape_rank_injective;
  laws = rank_cmp-IsTotalOrder shape_rank shape_rank_injective;
}
