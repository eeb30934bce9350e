-- ===== src/Transaction/Run.antt =====
-- `run_transaction`, `restore_failed_operation` and `_restore_runtime` of
-- mihomoctl/transaction.py, inside the operation lock.
use mihomo_userctl.Base.{
  ℕ, String, Bool, true, false, not, Option, none, some, List, [], ◌∷◌, ◌==◌, string_eq, ◌||◌, ◌&&◌,
  if◌then◌else◌, ok, raise,
}
use mihomo_userctl.Errors.{Exception, app}
use mihomo_userctl.Files.{FilePath, Files, Bytes, Os}
use mihomo_userctl.Trust.{Checked}
use mihomo_userctl.Transaction.{
  Transaction, Outside, Scope, Fault, Runtime, Phase, prepared, starting, unverified, restored,
  pending,
}
use mihomo_userctl.Transaction.Exec.{Exec, ◌>>=◌, ◌>>◌, pure, throw, modify, on_files}
use mihomo_userctl.Transaction.Publish
use mihomo_userctl.Transaction.Publish.{persist, write_bytes}
use mihomo_userctl.Transaction.Rollback.{Refusals, rollback, rollback_failed, commit, cleanup}

-- What the managed runtime answers: whether it runs before and after the files are restored; whether stopping it, reloading its unit and
-- starting it went well; whether the start, the status and the health were confirmed.
pub record Backend : Type 0 where
  pub running_before : Checked Bool
  pub running_after : Checked Bool
  pub stop : Checked Unit
  pub reload : Checked Unit
  pub start : Checked Bool
  pub status : Checked Bool
  pub health : Checked Bool

-- `except Exception: raise RollbackFailedError(…)`
abbrev pub or_failed : {A : Type 0} → Checked A → (A → Exec Unit) → Exec Unit
or_failed (ok a) k = k a
or_failed (raise e) k = throw rollback_failed

abbrev pub fail_unless : Bool → Exec Unit
fail_unless true = pure tt
fail_unless false = throw rollback_failed

abbrev is_unverified : Option Phase → Bool
is_unverified (some unverified) = true
is_unverified _ = false

abbrev is_prepared : Option Phase → Bool
is_prepared (some prepared) = true
is_prepared _ = false

-- `self.runtime['phase'] = phase`
abbrev pub set_phase : Phase → Transaction → Transaction
set_phase phase tx = elim tx.runtime [
  | none ↦ tx
  | some r ↦ record tx { runtime = some (record r { phase = some phase }) }
]

abbrev persist_or_failed : Option Exception → Exec Unit
persist_or_failed none = persist none restored
persist_or_failed (some e) = throw rollback_failed

module _ (os : Os) (backend : Backend) (f : Refusals) where
  -- What brings a runtime back that ran before.
  abbrev confirm : Bool → Exec Unit
  confirm false = do
    modify (set_phase starting)
    persist_or_failed f.persisting
    or_failed backend.start fail_unless
  confirm true =
      or_failed backend.status
        (λ passes. or_failed backend.health (λ healthy. fail_unless (healthy && passes)))

  unfoldable pub restore_runtime : Runtime → Exec Unit
  unfolding persist
  restore_runtime r = do
    fail_unless (not (is_unverified r.phase))
    if r.unit_reload then or_failed backend.reload (λ _. pure tt) else pure tt
    if r.was_running then or_failed backend.running_after confirm else pure tt

  abbrev stop_changed : Runtime → Exec Unit
  stop_changed r =
      if is_prepared r.phase
      then pure tt
      else or_failed backend.running_before
          (λ running. if running then or_failed backend.stop (λ _. pure tt) else pure tt)

  abbrev pub restore_with : Option Runtime → Exec Unit
  restore_with none = rollback os f true
  restore_with (some r) =
      if is_unverified r.phase
      then throw rollback_failed
      else if is_prepared r.phase && not r.unit_reload
      then rollback os f true
      else do
        stop_changed r
        rollback os f false
        restore_runtime r
        modify (λ tx. record tx { finished = true })
        cleanup f.cleaning

  unfoldable pub restore_failed_operation : Exec Unit
  unfolding rollback restore_runtime cleanup
  restore_failed_operation tx = restore_with tx.runtime tx

  -- `getattr(exc, 'code', '') in ('start-cleanup-failed', 'service-cleanup-unverified')`
  abbrev pub leaves_unverified : Exception → Bool
  leaves_unverified (app e) =
      e.code == "start-cleanup-failed" || e.code == "service-cleanup-unverified"
  leaves_unverified _ = false

  abbrev pub has_runtime : Transaction → Bool
  has_runtime tx = elim tx.runtime [ none ↦ false | some r ↦ true ]

  abbrev pub mark_unverified : Exception → Exec Unit
  mark_unverified e tx =
      if has_runtime tx && leaves_unverified e
      then persist f.persisting pending (set_phase unverified tx)
      else (ok tt, tx)

  -- The handler of `run_transaction`.
  abbrev pub handle : {A : Type 0} → Exception → Exec A
  handle e = do mark_unverified e; restore_failed_operation; throw e

  abbrev pub settle :
      {A : Type 0}
      → (Files → Checked Unit × Files)
      → Checked A × Transaction
      → Checked A × Transaction
  settle after (ok a, tx) = (on_files after >> pure a) tx
  settle after (raise e, tx) = if tx.finished then (raise e, tx) else handle e tx

  -- `after_commit` is what `cleanup_after_commit` does to the files and what it raises, `committing`
  -- what the kernel refuses of the commit.
  unfoldable pub run_transaction :
      {A : Type 0} → Refusals → (Files → Checked Unit × Files) → Exec A → Exec A
  unfolding restore_failed_operation commit persist
  run_transaction committing after_commit action tx =
      settle after_commit ((action >>= λ a. commit committing >> pure a) tx)

-- An action of the program: publications and deletions, and at any point an exception of its own.
pub data Step : Type 0 where
  write : Fault → FilePath → Bytes → Option ℕ → Step
  delete : Fault → FilePath → Option String → Step
  fail : Exception → Step

module _ (os : Os) (out : Outside) (s : Scope) where
  unfoldable pub run_step : Step → Exec Unit
  unfolding write_bytes Publish.delete
  run_step (write fault p content mode) = write_bytes os out fault s p content mode
  run_step (delete fault p marker) = Publish.delete os out fault s p marker >>= λ _. pure tt
  run_step (fail e) = throw e

  unfoldable pub run_steps : List Step → Exec Unit
  unfolding run_step
  run_steps [] = pure tt
  run_steps (x ∷ xs) = do run_step x; run_steps xs
