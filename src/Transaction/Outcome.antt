-- ===== src/Transaction/Outcome.antt =====
-- How `run_transaction` of mihomoctl/transaction.py ends, for an action that takes any steps and
-- touches no runtime.
use mihomo_userctl.Base.{
  ◌≡◌, refl, ap, ◌∙◌, Bool, true, false, ◌&&◌, Option, none, some, List, ok, raise, if◌then◌else◌,
  All,
}
use mihomo_userctl.Errors.{Exception, os_error}
use mihomo_userctl.Files.{Files, Os}
use mihomo_userctl.Trust.{Checked}
use mihomo_userctl.Transaction.{pending, unverified, Runtime, Transaction, Outside, Scope}
use mihomo_userctl.Transaction.Exec.{◌>>◌, pure, continue}
use mihomo_userctl.Transaction.Publish.{persist}
use mihomo_userctl.Transaction.Rollback.{Refusals, rollback, commit}
use mihomo_userctl.Transaction.Run.{
  Backend, Step, run_steps, run_transaction, restore_failed_operation, handle, settle,
  mark_unverified, restore_with, has_runtime, leaves_unverified, set_phase,
}
use mihomo_userctl.Transaction.Kept.{run_steps-Keeps}
use mihomo_userctl.Transaction.Atomicity.{
  LeadsBack, IsFresh, IsReversible, IsRolledBack, granted, rolled_back, fresh-LeadsBack,
  run_steps-LeadsBack,
}

-- A transaction that has just begun.
abbrev pub IsNew : Transaction → Type 0
IsNew tx = IsFresh tx × (tx.finished ≡ false) × (tx.runtime ≡ none)

abbrev pub Undone : Files → Exception → Checked Unit × Transaction → Type 0
Undone fs e r = (r.0 ≡ raise e) × IsRolledBack fs r.1

-- A committed transaction: `cleaning` is whether the private directories cannot be removed, `done` what
-- the steps left.
abbrev pub IsCommitted :
    (Files → Checked Unit × Files) → Bool → Transaction → Checked Unit × Transaction → Type 0
IsCommitted after cleaning done (result, tx) =
    (result ≡ (if cleaning then raise os_error else (after done.files).0))
    × (tx.finished ≡ true)
    × (tx.files ≡ (if cleaning then done.files else (after done.files).1))

module _ (os : Os) (backend : Backend) (fs : Files) where
  unmarked :
      (e : Exception) (t : Transaction)
      → t.runtime ≡ none
      → mark_unverified os backend granted e t ≡ (ok tt, t)
  unmarked e t h =
      let without : has_runtime os backend granted t ≡ false =
        ap (λ (r : Option Runtime). elim r [ none ↦ false | some _ ↦ true ]) h in
      ap
        (λ (b : Bool).
          if b && leaves_unverified os backend granted e
          then persist none pending (set_phase unverified t)
          else (ok tt, t))
        without

  pub restored_plainly :
      (t : Transaction)
      → t.runtime ≡ none
      → restore_failed_operation os backend granted t ≡ rollback os granted true t
  unfolding restore_failed_operation
  restored_plainly t h = ap (λ (r : Option Runtime). restore_with os backend granted r t) h

  -- The handler undoes everything and raises what it caught.
  handle_undoes :
      (e : Exception) (t : Transaction)
      → t.runtime ≡ none
      → LeadsBack os fs t
      → Undone fs e (handle os backend granted e t)
  handle_undoes e t h b =
      let (done, back) = rolled_back os fs t b in
      simp (unmarked e t h, restored_plainly t h, done) (refl, back)

  settle_undoes :
      (after : Files → Checked Unit × Files) (e : Exception) (t : Transaction)
      → t.finished ≡ false
      → t.runtime ≡ none
      → LeadsBack os fs t
      → Undone fs e (settle os backend granted {A = Unit} after (raise e, t))
  settle_undoes after e t f h b = simp f (handle_undoes e t h b)

module _ (os : Os) (out : Outside) (s : Scope) (backend : Backend) (committing : Refusals)
    (after : Files → Checked Unit × Files) (tx : Transaction) (new : IsNew tx) (xs : List Step)
    (reversible : All (IsReversible os tx.files) xs) where
  abbrev stepped : Checked Unit × Transaction
  stepped = run_steps os out s xs tx

  abbrev outcome : Checked Unit × Transaction
  outcome = run_transaction os backend granted committing after (run_steps os out s xs) tx

  abbrev closed : Checked Unit × Transaction → Checked Unit × Transaction
  closed r = continue r.0 (λ a. commit committing >> pure a) r.1

  back : LeadsBack os tx.files stepped.1
  back = run_steps-LeadsBack os out s tx.files xs tx (fresh-LeadsBack os tx new.0) reversible

  unfinished : stepped.1.finished ≡ false
  unfinished = ((run_steps-Keeps os out s xs).kept tx).0 ∙ new.1

  no_runtime : stepped.1.runtime ≡ none
  no_runtime = ((run_steps-Keeps os out s xs).kept tx).1 ∙ new.2

  -- If a step raises, `run_transaction` raises the same exception, and every path has the entry
  -- that it had before: for a new transaction without a runtime, reversible steps, and a kernel
  -- that refuses nothing during the rollback.
  pub run_transaction_raises :
      (e : Exception)
      → stepped.0 ≡ raise e
      → (outcome.0 ≡ raise e) × IsRolledBack tx.files outcome.1
  unfolding run_transaction
  run_transaction_raises e h = by_run stepped h back unfinished no_runtime
    where
      by_run :
          (r : Checked Unit × Transaction)
          → r.0 ≡ raise e
          → LeadsBack os tx.files r.1
          → r.1.finished ≡ false
          → r.1.runtime ≡ none
          → Undone tx.files e (settle os backend granted {A = Unit} after (closed r))
      by_run (x, t) h b f n = rw h (settle_undoes os backend tx.files after e t f n b)

  -- If the steps return but the journal cannot be marked committed, `run_transaction` raises what
  -- the writing of the journal raised, and every path has the entry that it had before: for a new
  -- transaction without a runtime, reversible steps, and a kernel that refuses nothing during the
  -- rollback.
  pub run_transaction_uncommitted :
      (e : Exception)
      → stepped.0 ≡ ok tt
      → committing.persisting ≡ some e
      → (outcome.0 ≡ raise e) × IsRolledBack tx.files outcome.1
  unfolding run_transaction commit persist
  run_transaction_uncommitted e h c = by_run stepped h back unfinished no_runtime
    where
      by_run :
          (r : Checked Unit × Transaction)
          → r.0 ≡ ok tt
          → LeadsBack os tx.files r.1
          → r.1.finished ≡ false
          → r.1.runtime ≡ none
          → Undone tx.files e (settle os backend granted {A = Unit} after (closed r))
      by_run (x, t) h b f n = rw (h, c) (settle_undoes os backend tx.files after e t f n b)
