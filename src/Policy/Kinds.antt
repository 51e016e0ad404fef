-- ===== src/Policy/Kinds.antt =====
-- The enumerations of crates/ambiguity-policy/src/lib.rs with their derived orders.
use mongres.Prelude.{ℕ, ◌≡◌, arith, Bool, true, false}
use mongres.Order.{Ord}
use mongres.Order.Derived.{rank_cmp, rank_cmp-IsTotalOrder}

-- `WriteOperation`
pub data WriteOperation : Type 0 where
  insert update delete : WriteOperation

abbrev pub operation_eq : WriteOperation → WriteOperation → Bool
operation_eq WriteOperation.insert WriteOperation.insert = true
operation_eq WriteOperation.update WriteOperation.update = true
operation_eq WriteOperation.delete WriteOperation.delete = true
operation_eq a b = false

-- `AmbiguityKind`
pub data AmbiguityKind : Type 0 where
  mixed_bson_types mixed_shapes dotted_path_collision missing_from_sampled_documents : AmbiguityKind

abbrev pub kind_rank : AmbiguityKind → ℕ
kind_rank mixed_bson_types = 0
kind_rank mixed_shapes = 1
kind_rank dotted_path_collision = 2
kind_rank missing_from_sampled_documents = 3

pub kind_rank_injective : (a b : AmbiguityKind) → kind_rank a ≡ kind_rank b → a ≡ b
kind_rank_injective a b h = ground arith

instance abbrev pub kind_ord : Ord AmbiguityKind
kind_ord = record {
  cmp = rank_cmp kind_rank kind_rank_injective;
  laws = rank_cmp-IsTotalOrder kind_rank kind_rank_injective;
}

-- `ResolutionCandidate`
pub data ResolutionCandidate : Type 0 where
  keep_string parse_integer_losslessly keep_integer format_integer_as_string use_nested_path
        reject :
      ResolutionCandidate

abbrev pub candidate_rank : ResolutionCandidate → ℕ
candidate_rank keep_string = 0
candidate_rank parse_integer_losslessly = 1
candidate_rank keep_integer = 2
candidate_rank format_integer_as_string = 3
candidate_rank use_nested_path = 4
candidate_rank reject = 5

pub candidate_rank_injective :
    (a b : ResolutionCandidate) → candidate_rank a ≡ candidate_rank b → a ≡ b
candidate_rank_injective a b h = ground arith

instance abbrev pub candidate_ord : Ord ResolutionCandidate
candidate_ord = record {
  cmp = rank_cmp candidate_rank candidate_rank_injective;
  laws = rank_cmp-IsTotalOrder candidate_rank candidate_rank_injective;
}
