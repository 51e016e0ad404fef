-- ===== src/Proxy/Auth.antt =====
-- crates/proxy/src/auth.rs: the settings, and the handler of the messages before a session starts.
-- The client is an interface of the pgwire crate; a call of it that fails leaves an error, and the
-- handler's state is the client.
pub mod Password
use Prim.Native.String
use mongres.Prelude.{
  String, Bool, true, false, not, ◌&&◌, List, [], ◌∷◌, Option, none, some, ◌≡◌, if◌then◌else◌,
}
use mongres.Order.{◌=ₖ◌}
use mongres.Order.Text.{text_ord}
use mongres.Text.{is_empty}
use mongres.Text.Search.{codes, lower_codes, equal}
use mongres.Common.{Result, ok, err, ◌>>=◌, ProxyError}
use mongres.TypePolicy.{invalid_input}

-- `ProxyAuthConfig`
pub data ProxyAuthConfig : Type 0 where
  trust : ProxyAuthConfig
  cleartext_password : String → String → ProxyAuthConfig

abbrev missing_setting : String → ProxyError
missing_setting name =
    invalid_input (String.◌++◌ name " is required when PROXY_AUTH_MODE=cleartext")

-- `required_setting`
unfoldable pub required_setting : String → Option String → Result ProxyError String
required_setting name none = err (missing_setting name)
required_setting name (some value) = if is_empty value then err (missing_setting name) else ok value

-- `ProxyAuthConfig::parse`
unfoldable pub parse_config :
    String → Option String → Option String → Result ProxyError ProxyAuthConfig
unfolding codes lower_codes equal required_setting
parse_config mode username password =
    let cleartext = required_setting "PROXY_AUTH_USER" username >>= λ u.
    required_setting "PROXY_AUTH_PASSWORD" password >>= λ p. ok (cleartext_password u p) in
    if equal (lower_codes mode) (codes "trust")
    then ok trust
    else if equal (lower_codes mode) (codes "cleartext")
    then cleartext
    else err (invalid_input "PROXY_AUTH_MODE must be 'trust' or 'cleartext'")

-- `PgWireFrontendMessage`: a startup, a message of the password family with what `into_password`
-- makes of it, or another one.
pub data Message (Startup : Type 0) : Type 0 where
  startup : Startup → Message Startup
  password : Option String → Message Startup
  other : Message Startup

-- The client of the pgwire crate: `save` is `save_startup_parameters_to_metadata`, `finish` is
-- `finish_authentication`, and the calls that send say whether they succeed. Only `finish` makes a
-- client ready for queries.
pub record ClientApi : Type 1 where
  pub Client : Type 0
  pub Startup : Type 0
  pub is_ready : Client → Bool
  pub metadata_user : Client → Option String
  pub save : Startup → Client → Client
  pub finish : Client → Client
  pub set_authenticating : Client → Client
  pub request_password : Client → Bool × Client
  pub feed_failure : Client → Bool × Client
  pub close : Client → Bool × Client
  pub is_ready-save : (s : Startup) (c : Client) → is_ready (save s c) ≡ is_ready c
  pub is_ready-set_authenticating : (c : Client) → is_ready (set_authenticating c) ≡ false
  pub is_ready-request_password : (c : Client) → is_ready (request_password c).1 ≡ is_ready c
  pub is_ready-feed_failure : (c : Client) → is_ready (feed_failure c).1 ≡ is_ready c
  pub is_ready-close : (c : Client) → is_ready (close c).1 ≡ is_ready c

module _ (api : ClientApi) where
  open api use {Client, Startup}

  -- `PgWireResult<()>` with the client: whether the handler ends well
  abbrev pub Handled : Type 0
  Handled = Bool × Client

  -- `trust_startup`
  unfoldable pub trust_startup : Client → Message Startup → Handled
  trust_startup c (Message.startup s) = (true, api.finish (api.save s c))
  trust_startup c m = (true, c)

  abbrev pub then_close : Handled → Handled
  then_close (false, c) = (false, c)
  then_close (true, c) = api.close c

  abbrev pub is_user : String → Option String → Bool
  is_user expected none = false
  is_user expected (some user) = user =ₖ expected

  -- `cleartext_startup`
  unfoldable pub cleartext_startup : Client → Message Startup → String → String → Handled
  cleartext_startup c (Message.startup s) user expected =
      api.request_password (api.set_authenticating (api.save s c))
  cleartext_startup c (Message.password none) user expected = (false, c)
  cleartext_startup c (Message.password (some received)) user expected =
      if is_user user (api.metadata_user c) && (received =ₖ expected)
      then (true, api.finish c)
      else then_close (api.feed_failure c)
  cleartext_startup c Message.other user expected = (true, c)

  -- `on_startup`
  unfoldable pub on_startup : ProxyAuthConfig → Client → Message Startup → Handled
  unfolding trust_startup cleartext_startup
  on_startup trust c m = trust_startup c m
  on_startup (cleartext_password user expected) c m = cleartext_startup c m user expected

  -- The client after the messages of a connection, the first one first.
  unfoldable pub after : ProxyAuthConfig → Client → List (Message Startup) → Client
  unfolding on_startup
  after config c [] = c
  after config c (m ∷ ms) = after config (on_startup config c m).1 ms
