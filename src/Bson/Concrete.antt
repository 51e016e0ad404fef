-- ===== src/Bson/Concrete.antt =====
-- A concrete instance of the interface: a document is the list of its fields in insertion order, in
-- which a name that is set again keeps its place.
use mongres.Prelude.{
  String, Bool, List, [], ◌∷◌, Option, none, some, ◌≡◌, refl, arith, if◌then◌else◌,
}
use mongres.Prelude.Int.{ℤ}
use mongres.F64.{F64}
use mongres.Order.{◌=ₖ◌, =ₖ_sound, =ₖ_refl}
use mongres.Order.Text.{text_ord}
use mongres.Bson.{BsonApi}

mutual
  pub data Value : Type 0 where
    null : Value
    boolean : Bool → Value
    int32 int64 : ℤ → Value
    double : F64 → Value
    string : String → Value
    array : Values → Value
    document : Fields → Value

  pub data Values : Type 0 where
    nil : Values
    cons : Value → Values → Values

  pub data Fields : Type 0 where
    end : Fields
    field : String → Value → Fields → Fields

abbrev pub values : List Value → Values
values [] = nil
values (v ∷ vs) = cons v (values vs)

abbrev pub nested : Value → Option Fields
nested (document d) = some d
nested v = none

abbrev pub set_field : String → Value → Fields → Fields
set_field k v end = field k v end
set_field k v (field j w d) = if k =ₖ j then field j v d else field j w (set_field k v d)

abbrev pub get_field : String → Fields → Option Value
get_field k end = none
get_field k (field j w d) = if k =ₖ j then some w else get_field k d

pub get_field-set_field :
    (j k : String) (v : Value) (d : Fields)
    → get_field j (set_field k v d) ≡ (if j =ₖ k then some v else get_field j d)
get_field-set_field j k v end = refl
get_field-set_field j k v (field i w d) = ground (
  arith,
  get_field-set_field j k v d,
  =ₖ_sound j k,
  =ₖ_sound k i,
  =ₖ_sound j i,
  =ₖ_refl k,
  =ₖ_refl i,
)

abbrev pub concrete : BsonApi
concrete = record {
  Bson = Value;
  Document = Fields;
  null = null;
  boolean = boolean;
  int32 = int32;
  int64 = int64;
  double = double;
  string = string;
  array = λ vs. array (values vs);
  document = document;
  as_document = nested;
  empty = end;
  insert = set_field;
  get = get_field;
  get-empty = λ k. refl;
  get-insert = get_field-set_field;
  as_document-document = λ d. refl;
  as_document-null = refl;
  as_document-boolean = λ b. refl;
  as_document-int64 = λ n. refl;
  as_document-double = λ x. refl;
  as_document-string = λ s. refl;
}
