-- ===== src/Transaction/Failures.antt =====
-- What stays when a transaction of mihomoctl/transaction.py cannot be undone.
use mathlib.Core.List.{reverse, reverse-reverse}
use mihomo_userctl.Base.{
  ◌≡◌, ◌≢◌, refl, inl, inr, Bool, true, false, none, some, List, [], ◌∷◌, if◌then◌else◌, ok, raise,
  All, Any, arith,
}
use mihomo_userctl.Base.Dict.{Dict}
use mihomo_userctl.Errors.{Exception, os_error}
use mihomo_userctl.Files.{FilePath, Bytes, Files, Os}
use mihomo_userctl.Trust.{Checked}
use mihomo_userctl.Trust.Ancestors.{All-reverse}
use mihomo_userctl.Transaction.{Transaction, Record, Backup, Runtime, unverified, pending, restored}
use mihomo_userctl.Transaction.Exec.{Exec, ◌>>◌, continue}
use mihomo_userctl.Transaction.Publish.{persist}
use mihomo_userctl.Transaction.Rollback.{
  Refusals, rollback, undo, undo_all, handled, and_then, report, finish_with, rollback_failed,
}
use mihomo_userctl.Transaction.Run.{
  Backend, restore_failed_operation, run_transaction, leaves_unverified,
}

abbrev IsUndoable : (Record → Bool) → Record → Type 0
IsUndoable refused r = refused r ≡ false

abbrev IsRefused : (Record → Bool) → Record → Type 0
IsRefused refused r = refused r ≡ true

not-All :
    (refused : Record → Bool) (rs : List Record)
    → Any (IsRefused refused) rs
    → ¬ All (IsUndoable refused) rs
not-All refused [] h _ = h
not-All refused (r ∷ rs) (inl a) (b, h) = cc
not-All refused (r ∷ rs) (inr a) (b, h) = not-All refused rs a h

-- A path that has failed is not forgotten.
undo_all_keeps :
    (os : Os) (refused : Record → Bool) (saved : Dict Backup Bytes) (rs : List Record)
    (failures : List FilePath) (g : Files)
    → (undo_all os refused saved rs failures g).0 ≡ ok []
    → (failures ≡ []) × All (IsUndoable refused) rs
unfolding undo_all
undo_all_keeps os refused saved [] failures g h = (cc, tt)
undo_all_keeps os refused saved (r ∷ rs) failures g h =
    by_step (if refused r then (raise os_error, g) else undo os saved r g) (λ e. rw e refl) h
      (λ failures' g'. undo_all_keeps os refused saved rs failures' g')
  where
    next : List FilePath → Files → Checked (List FilePath) × Files
    next failures' g' = undo_all os refused saved rs failures' g'

    by_step :
        (x : Checked Unit × Files)
        → (refused r ≡ true → x.0 ≡ raise os_error)
        → (and_then os (handled os r.path failures x) next).0 ≡ ok []
        → ((failures' : List FilePath) (g' : Files)
            → (next failures' g').0 ≡ ok []
            → (failures' ≡ []) × All (IsUndoable refused) rs)
        → (failures ≡ []) × All (IsUndoable refused) (r ∷ rs)
    by_step (ok _, g') a h k = ground (arith, k failures g')
    by_step (raise e, g') a h k = ground (arith, k (r.path ∷ failures) g')

abbrev finishing : Refusals → Bool → List FilePath → Exec Unit
finishing f finish failures = do
  report failures
  persist f.persisting restored
  finish_with finish f

module _ (os : Os) (f : Refusals) (tx : Transaction) where
  -- If the kernel refuses to undo any record of the journal, the rollback raises, and the journal,
  -- the stored document, the backups and the state of the transaction are what they were, so that
  -- a later recovery can try again.
  pub rollback_refused :
      (finish : Bool)
      → Any (IsRefused f.undoing) tx.journal
      → ((rollback os f finish tx).0 ≢ ok tt)
        × ((rollback os f finish tx).1 ≡ record tx { files = (rollback os f finish tx).1.files })
  unfolding rollback
  rollback_refused finish h =
      by_result (undo_all os f.undoing tx.saved (reverse tx.journal) [] tx.files) (λ e.
        not-All f.undoing tx.journal h (
          rw reverse-reverse at (
            All-reverse (IsUndoable f.undoing) (reverse tx.journal)
              (undo_all_keeps os f.undoing tx.saved (reverse tx.journal) [] tx.files e).1)))
    where
      rest : Checked (List FilePath) × Files → Checked Unit × Transaction
      rest r = continue r.0 (finishing f finish) (record tx { files = r.1 })

      by_result :
          (r : Checked (List FilePath) × Files)
          → ¬ (r.0 ≡ ok [])
          → ((rest r).0 ≢ ok tt) × ((rest r).1 ≡ record tx { files = (rest r).1.files })
      by_result (ok [], g) k = absurd (k refl)
      by_result (ok (p ∷ ps), g) k = (λ e. cc, refl)
      by_result (raise e, g) k = (λ e. cc, refl)

module _ {A : Type 0} (os : Os) (backend : Backend) (committing : Refusals) (f : Refusals)
    (after : Files → Checked Unit × Files) (action : Exec A) (tx t : Transaction) (e : Exception)
    (r : Runtime) where
  -- If an action raises one of the codes that say that a runtime could not be stopped, with the
  -- transaction unfinished and a runtime recorded, and the journal can be written, then nothing is
  -- undone: `run_transaction` raises `rollback-failed`, leaves the files, the journal and the
  -- backups as they are, and stores that the runtime is unverified.
  pub run_transaction_unverified :
      action tx ≡ (raise e, record t { finished = false; runtime = some r })
      → leaves_unverified os backend f e ≡ true
      → f.persisting ≡ none
      → (run_transaction os backend f committing after action tx).0 ≡ raise rollback_failed
        × ((run_transaction os backend f committing after action tx).1 ≡ (
            let marked : Runtime = record r { phase = some unverified } in
            record t {
              finished = false;
              runtime = some marked;
              stored =
                  some (record { state = pending; journal = t.journal; runtime = some marked });
            }))
  unfolding run_transaction restore_failed_operation persist
  run_transaction_unverified h leaves persists = rw (h, leaves, persists) (refl, refl)
