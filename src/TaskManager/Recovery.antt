-- ===== src/TaskManager/Recovery.antt =====
-- pkg/safe/groutine.go: GoWithRecovery and Go, by what becomes of a panic of the goroutine, and Ctx.
use frp_provisioner.Prelude.{String}
use frp_provisioner.Go.{Result, ok, err, panic, M, crash}
use frp_provisioner.Logger.{Zap, without_context}

-- taskManager.ctx, to which NewTaskManager sets the context that its cancel cancels.
pub record Manager (Context : Type 0) : Type 0 where
  pub ctx : Context

abbrev pub ctx_of : {Context : Type 0} → Manager Context → Context
ctx_of p = p.ctx

module _ {S : Type 0} where
  -- The deferred function: `if err := recover(); err != nil { customRecover(err) }`
  abbrev pub recovered : (String → M S (Unit {0})) → Result (Unit {0}) × S → Result (Unit {0}) × S
  recovered custom_recover (ok u, s) = (ok u, s)
  recovered custom_recover (err e, s) = (err e, s)
  recovered custom_recover (panic message, s) = custom_recover message s

  -- The body of the goroutine that is started.
  unfoldable pub go_with_recovery : M S (Unit {0}) → (String → M S (Unit {0})) → M S (Unit {0})
  go_with_recovery goroutine custom_recover s = recovered custom_recover (goroutine s)

  -- Sugar().Panic writes a line and then panics with it.
  abbrev pub sugar_panic :
      {Logger : Type 0} → (Logger → String → S → S) → Logger → String → M S (Unit {0})
  sugar_panic write logger message s = crash message (write logger message s)

  -- The logger is read when Go is called.
  unfoldable pub go : (Z : Zap S) → (Z.Logger → String → S → S) → M S (Unit {0}) → M S (Unit {0})
  unfolding go_with_recovery
  go Z write goroutine s = go_with_recovery goroutine (sugar_panic write (without_context Z s)) s
