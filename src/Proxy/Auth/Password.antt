-- ===== src/Proxy/Auth/Password.antt =====
-- With cleartext authentication, a session needs the password.
use mongres.Prelude.{
  String, Bool, true, false, ◌&&◌, List, [], ◌∷◌, ◌++◌, Option, none, some, ◌≡◌, ap, ◌∙◌, arith,
  Bool-cases, inl, inr,
}
use mongres.Order.{◌=ₖ◌, =ₖ_sound}
use mongres.Order.Text.{text_ord}
use mongres.Proxy.Auth.{
  cleartext_password, Message, ClientApi, is_user, then_close, cleartext_startup, on_startup, after,
}

module _ (api : ClientApi) (user expected : String) where
  open api use {Client, Startup}

  -- Some message carried the expected password, when the client had named the expected user.
  abbrev pub HadPassword : Client → List (Message Startup) → Type 0
  HadPassword c messages =
      (before : List (Message Startup)) × (rest : List (Message Startup)) × (messages
        ≡ before ++ Message.password (some expected) ∷ rest)
      × (api.metadata_user (after api (cleartext_password user expected) c before) ≡ some user)

  is_user_lem : (named : Option String) → is_user api user named ≡ true → named ≡ some user
  is_user_lem none h = cc
  is_user_lem (some name) h = ap some (=ₖ_sound name user h)

  close_lem :
      (r : Bool × Client) → api.is_ready r.1 ≡ false → api.is_ready (then_close api r).1 ≡ false
  close_lem (false, c) h = h
  close_lem (true, c) h = api.is_ready-close c ∙ h

  -- One message makes the client ready only if it is the password of the user.
  step_lem :
      (c : Client) (m : Message Startup)
      → api.is_ready c ≡ false
      → api.is_ready (cleartext_startup api c m user expected).1 ≡ true
      → (m ≡ Message.password (some expected)) × (api.metadata_user c ≡ some user)
  unfolding cleartext_startup
  step_lem c (Message.startup s) h ready = absurd (
      ground (
        arith,
        api.is_ready-request_password (api.set_authenticating (api.save s c)),
        api.is_ready-set_authenticating (api.save s c),
      ))
  step_lem c (Message.password none) h ready = absurd (ground arith)
  step_lem c Message.other h ready = absurd (ground arith)
  step_lem c (Message.password (some received)) h ready =
      elim (Bool-cases (is_user api user (api.metadata_user c) && (received =ₖ expected))) [
        | inr wrong ↦
            let closed = close_lem (api.feed_failure c) (api.is_ready-feed_failure c ∙ h) in
            absurd (ground (arith, wrong, closed))
        | inl right ↦ (
          ap (λ p. Message.password (some p)) (=ₖ_sound received expected (ground (arith, right))),
          is_user_lem (api.metadata_user c) (ground (arith, right)),
        )
      ]

-- With cleartext authentication, a client that was not ready for queries and is ready after some
-- messages sent a message with exactly the configured password, at a point where the user that it had
-- named was exactly the configured one.
pub after-HadPassword :
    (api : ClientApi) (user expected : String) (c : api.Client)
    (messages : List (Message api.Startup))
    → api.is_ready c ≡ false
    → api.is_ready (after api (cleartext_password user expected) c messages) ≡ true
    → HadPassword api user expected c messages
unfolding after on_startup
after-HadPassword api user expected c [] waiting ready = absurd (ground arith)
after-HadPassword api user expected c (m ∷ messages) waiting ready =
    let next = (cleartext_startup api c m user expected).1 in
    elim (Bool-cases (api.is_ready next)) [
      | inl now ↦
          let (same, named) = step_lem api user expected c m waiting now in
          ([], messages, ap (λ first. first ∷ messages) same, named)
      | inr later ↦
          let (before, rest, split, named) =
            after-HadPassword api user expected next messages later ready in
          (m ∷ before, rest, ap (λ ms. m ∷ ms) split, named)
    ]
