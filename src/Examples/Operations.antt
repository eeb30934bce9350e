-- ===== src/Examples/Operations.antt =====
-- Operations of mihomoctl/transaction.py that fail, or end, on a small disk.
use mihomo_userctl.Base.{
  ◌≡◌, ◌≢◌, refl, inl, inr, true, false, none, some, List, [], ◌∷◌, ok, raise, string_eq, nat_eq,
  ◌↔◌, ◌⊎◌, any, contains,
}
use mihomo_userctl.Base.Dict
use mihomo_userctl.Trust.{Checked, make_dirs, missing_from, check_ancestors}
use mihomo_userctl.Trust.Ancestors.{AreSafe}
use mihomo_userctl.Transaction.Destination.{
  check_destination, managed_roots, is_canonical, check_destination_ok,
}
use mihomo_userctl.Transaction.Rollback.{Refusals, rollback, rollback_failed}
use mihomo_userctl.Transaction.Run.{Step, write, delete, run_steps, run_transaction}
use mihomo_userctl.Transaction.Atomicity.{granted, IsRolledBack, rollback-run_steps}
use mihomo_userctl.Transaction.Outcome.{IsNew, run_transaction_raises, run_transaction_uncommitted}
use mihomo_userctl.Transaction.Failures.{rollback_refused, run_transaction_unverified}
use mihomo_userctl.Errors.{Exception, os_error, raised, state_error}
use mihomo_userctl.Files.{path_eq, Files, lstat, exists, mkdir, is_symlink, relative_to, parents}
use mihomo_userctl.Transaction.{
  Transaction, no_fault, at_sync, Runtime, prepared, unverified, pending,
}
use mihomo_userctl.Examples.Disk.{
  user, config, state, disk, disk-IsTree, outside, scope, begun, quiet,
}

-- Replace the configuration, create a file below a new directory, whose last `fsync` fails.
abbrev broken : List Step
broken = write no_fault config (3 ∷ []) none ∷ write at_sync state (4 ∷ []) (some 0o600) ∷ []

-- The same without the failure, and the deletion of the configuration.
abbrev complete : List Step
complete = write no_fault state (4 ∷ []) (some 0o600) ∷ delete no_fault config none ∷ []

begun-IsNew : IsNew begun
begun-IsNew = ((refl, disk-IsTree), refl, refl)

-- The clean-up after the commit removes the configuration, and fails.
abbrev sweep : Files → Checked Unit × Files
sweep fs = (raise os_error, Dict.remove fs config)

abbrev ran : Refusals → List Step → Checked Unit × Transaction
ran committing xs =
    run_transaction user quiet granted committing sweep (run_steps user outside scope xs) begun

run_transaction_raises_example :
    ((ran granted broken).0 ≡ raise os_error) × IsRolledBack disk (ran granted broken).1
unfolding run_steps lstat Dict.get Dict.put path_eq check_destination check_ancestors string_eq
    nat_eq make_dirs missing_from exists mkdir
run_transaction_raises_example =
    run_transaction_raises user outside scope quiet granted sweep begun begun-IsNew broken
      ((tt, inr (refl, refl)), ((tt, tt), tt)) os_error refl

abbrev full_disk : Refusals
full_disk = record { undoing = λ r. false; persisting = some os_error; cleaning = false }

run_transaction_uncommitted_example :
    ((ran full_disk complete).0 ≡ raise os_error) × IsRolledBack disk (ran full_disk complete).1
unfolding run_steps lstat Dict.get Dict.put path_eq check_destination check_ancestors string_eq
    nat_eq make_dirs missing_from exists mkdir
run_transaction_uncommitted_example =
    run_transaction_uncommitted user outside scope quiet full_disk sweep begun begun-IsNew complete
      ((tt, tt), (inr (refl, refl), tt)) os_error refl refl

abbrev broken_end : Transaction
broken_end = (run_steps user outside scope broken begun).1

rollback-run_steps_example :
    ((rollback user granted true broken_end).0 ≡ ok tt)
    × IsRolledBack disk (rollback user granted true broken_end).1
unfolding lstat Dict.get Dict.put path_eq
rollback-run_steps_example =
    rollback-run_steps user outside scope quiet begun (begun-IsNew.0) broken
      ((tt, inr (refl, refl)), ((tt, tt), tt))

abbrev stubborn : Refusals
stubborn = record { undoing = λ r. r.created; persisting = none; cleaning = false }

rollback_refused_example :
    ((rollback user stubborn true broken_end).0 ≢ ok tt)
    × ((rollback user stubborn true broken_end).1
        ≡ record broken_end { files = (rollback user stubborn true broken_end).1.files })
unfolding run_steps lstat Dict.get Dict.put path_eq check_destination check_ancestors string_eq
    nat_eq make_dirs missing_from exists mkdir
rollback_refused_example = rollback_refused user stubborn broken_end true (inr (inl refl))

abbrev was_running : Runtime
was_running = record { was_running = true; phase = some prepared; unit_reload = false }

abbrev lost : Exception
lost = raised state_error "start-cleanup-failed"

abbrev running : Transaction
running = record begun { runtime = some was_running }

abbrev lose : Transaction → Checked Unit × Transaction
lose tx = (raise lost, running)

abbrev lost_run : Checked Unit × Transaction
lost_run = run_transaction user quiet granted granted sweep lose begun

abbrev marked : Runtime
marked = record was_running { phase = some unverified }

run_transaction_unverified_example :
    (lost_run.0 ≡ raise rollback_failed)
    × (lost_run.1 ≡ record running {
      runtime = some marked;
      stored = some (record { state = pending; journal = []; runtime = some marked });
    })
unfolding string_eq
run_transaction_unverified_example =
    run_transaction_unverified user quiet granted granted sweep lose begun running lost was_running
      refl refl refl

check_destination_ok_example : (check_destination user scope begun state ≡ ok tt) ↔ (
    (is_canonical state ≡ true)
    × AreSafe (0 ∷ 1000 ∷ []) disk (parents state)
    × ((contains [] state ≡ true)
        ⊎ ((is_symlink (lstat disk state) ≡ false)
            × (any (relative_to state) (managed_roots scope) ≡ true))))
check_destination_ok_example = check_destination_ok user scope begun state
