-- ===== src/Proxy/Backend/Audited/Reached.antt =====
-- The audit log of a proxy in every state that it can reach.
use mongres.Prelude.{ℕ, String, Bool, List, [], Option}
use mongres.F64.{F64}
use mongres.Bson.{BsonApi}
use mongres.Order.Text.{text_ord}
use mongres.Common.{Result, ProxyError}
use mongres.Plan.{SqlValue}
use mongres.Policy.{candidate_ord, ResolverRequest, ResolverResponse}
use mongres.Executor.Run.{Driver}
use mongres.Sql.Ast.{Statement}
use mongres.Proxy.Ambiguity.{AuditLog}
use mongres.Proxy.Wire.{BsonCase}
use mongres.Proxy.Backend.{Backend, execute, execute_bound}
use mongres.Proxy.Backend.Audited.{LogIsSound, execute-Sound, execute_bound-Sound}

-- The proxy as it runs: the resolver may answer the same request differently each time.
module _ (api : BsonApi) (view : api.Bson → BsonCase) (driver : Driver api)
    (show_f64 : F64 → String) (scaled : F64 → Option ℕ)
    (parse_statements : String → Result String (List Statement)) (parse_f64 : String → Option F64)
    (backend : Backend) where
  open driver use {World}

  -- One step of the proxy's state, which is the audit log and the world: a simple query, a statement
  -- with bound parameters, each with what the resolver answers in that step, or a change of the
  -- database by anyone else. A step asks the resolver once at most.
  pub data Step : AuditLog × World → AuditLog × World → Type 0 where
    simple :
        (resolve : ResolverRequest → Result ProxyError ResolverResponse) (query : String)
        (log : AuditLog) (w : World)
        → Step
            (log, w)
            (execute api view driver resolve show_f64 scaled parse_statements parse_f64 backend
              query log w).1
    extended :
        (resolve : ResolverRequest → Result ProxyError ResolverResponse) (query : String)
        (parameters : List SqlValue) (log : AuditLog) (w : World)
        → Step
            (log, w)
            (execute_bound api view driver resolve show_f64 scaled parse_statements parse_f64
              backend query parameters log w).1
    elsewhere : (log : AuditLog) (w w' : World) → Step (log, w) (log, w')

  pub data Reach (s : AuditLog × World) : AuditLog × World → Type 0 where
    here : Reach s s
    next : {t u : AuditLog × World} → Reach s t → Step t u → Reach s u

  Step-LogIsSound :
      {s t : AuditLog × World}
      → Step s t
      → LogIsSound backend.profiles s.0
      → LogIsSound backend.profiles t.0
  Step-LogIsSound (simple resolve query log w) h =
      execute-Sound api view driver resolve show_f64 scaled parse_statements parse_f64 backend query
        log w h
  Step-LogIsSound (extended resolve query parameters log w) h =
      execute_bound-Sound api view driver resolve show_f64 scaled parse_statements parse_f64 backend
        query parameters log w h
  Step-LogIsSound (elsewhere log w w') h = h

  -- In every state that the proxy reaches from an empty audit log, by any simple and bound queries, with
  -- a resolver that may answer anything in each of them, and with any changes of the database between
  -- them, each record of the log is on the version of a configured profile, and each record of an
  -- executed write has an allowed candidate other than rejection and a confidence of at most 10,000
  -- basis points.
  pub Reach-LogIsSound :
      (poisoned : Bool) (w : World) (t : AuditLog × World)
      → Reach (record { poisoned = poisoned; records = [] }, w) t
      → LogIsSound backend.profiles t.0
  Reach-LogIsSound poisoned w t reached = go t reached
    where
      go :
          (u : AuditLog × World)
          → Reach (record { poisoned = poisoned; records = [] }, w) u
          → LogIsSound backend.profiles u.0
      go u here = tt
      go u (next {t = v} before step) = Step-LogIsSound step (go v before)
