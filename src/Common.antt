-- ===== src/Common.antt =====
-- crates/common/src/lib.rs: the errors that cross crate boundaries. `Result<T, E>` with its `?` is a
-- monad, and the iterator adaptors that stop at the first error are functions over lists. The texts
-- of the messages are modelled where the code computes with them or a caller can tell them apart by
-- the field that they name.
pub mod Results
use Prim.Native.String.{String}
use mongres.Prelude.{◌≡◌}

pub data ErrorKind : Type 0 where
  syntax feature_not_supported invalid_input ambiguous_write database dependency : ErrorKind

-- `ErrorKind::sql_state`
unfoldable pub sql_state : ErrorKind → String
sql_state ErrorKind.syntax = "42601"
sql_state ErrorKind.feature_not_supported = "0A000"
sql_state ErrorKind.invalid_input = "22023"
sql_state ErrorKind.ambiguous_write = "22000"
sql_state ErrorKind.database = "XX000"
sql_state ErrorKind.dependency = "08006"

pub record ProxyError : Type 0 where
  pub kind : ErrorKind
  pub message : String

-- `ProxyError::new`
abbrev pub proxy_error : ErrorKind → String → ProxyError
proxy_error kind message = record { kind = kind; message = message }

pub data Result {ℓ} (E : Type 0) (A : Type ℓ) : Type ℓ where
  ok : A → Result E A
  err : E → Result E A

-- `?`
infixl 5 ◌>>=◌ ◌>>◌
abbrev pub ◌>>=◌ {ℓ κ} :
    {E : Type 0} {A : Type ℓ} {B : Type κ} → Result E A → (A → Result E B) → Result E B
ok a >>= f = f a
err e >>= f = err e

abbrev pub ◌>>◌ {ℓ} : {E : Type 0} {B : Type ℓ} → Result E (Unit {0}) → Result E B → Result E B
m >> k = m >>= λ _. k

-- The result is an error of the kind.
abbrev pub Fails {ℓ} : {A : Type ℓ} → Result ProxyError A → ErrorKind → Type 0
Fails (ok a) kind = ⊥
Fails (err e) kind = e.kind ≡ kind
