-- ===== src/Transaction/Recover/Visits.antt =====
-- The loop of `recover_transactions` of mihomoctl/transaction.py over the directories.
use mihomo_userctl.Base.{
  option_eq, Bool, true, false, not, Option, none, some, List, [], ◌∷◌, string_eq, is_some,
  if◌then◌else◌, ok, raise,
}
use mihomo_userctl.Errors.{os_error}
use mihomo_userctl.Files.{FilePath, path_eq, Files, Os}
use mihomo_userctl.Trust.{Checked}
use mihomo_userctl.Transaction.{
  Backup_eq, Runtime, DocumentState, pending, committed, restored, Transaction, Outside, Scope,
}
use mihomo_userctl.Transaction.Exec.{Exec}
use mihomo_userctl.Transaction.Exec
use mihomo_userctl.Transaction.Rollback.{Refusals, cleanup}
use mihomo_userctl.Transaction.Run.{Backend, restore_failed_operation, restore_runtime}
use mihomo_userctl.Transaction.Recover.{
  StoredDocument, Directory, recovery_required, not_private, read_document, state_of,
}
use mihomo_userctl.Transaction.Recover.Reopen.{reopen}

-- How the visit of a directory ends: its result, the files, and whether the directory is still there.
abbrev pub Visit : Type 0
Visit = Checked Unit × Files × Bool

abbrev pub visited : Checked Unit × Transaction → Visit
visited (r, tx) = (r, tx.files, is_some tx.stored)

abbrev pub go_on : Visit → (Files → Checked Unit × Files) → Checked Unit × Files
go_on (ok _, fs, _) next = next fs
go_on (raise e, fs, _) next = (raise e, fs)

-- A directory with the answers of the runtime, and the refusals of the kernel, while it is visited.
pub record Pending : Type 0 where
  pub directory : Directory
  pub backend : Backend
  pub refusals : Refusals

module _ (os : Os) (out : Outside) (s : Scope) (home : FilePath) where
  module _ (backend : Backend) (f : Refusals) where
    abbrev pub restore_some : Option Runtime → Exec Unit
    restore_some none = Exec.pure tt
    restore_some (some r) = restore_runtime os backend f r

    -- What is done with a journal that passed, by its state.
    unfoldable pub conclude : DocumentState → Exec Unit
    unfolding restore_failed_operation restore_runtime cleanup
    conclude pending = restore_failed_operation os backend f
    conclude committed = cleanup f.cleaning
    conclude restored = Exec.◌>>=◌ (λ tx. restore_some tx.runtime tx) (λ _. cleanup f.cleaning)

    abbrev pub recover_as : DocumentState → Checked Transaction → Files → Visit
    recover_as state (raise e) fs = (raise e, fs, true)
    recover_as state (ok tx) fs = visited (conclude state tx)

    -- A journal of the old release has nothing to undo; `shutil.rmtree` may be refused.
    abbrev pub discard_old : Bool → Files → Visit
    discard_old is_old fs =
        if not is_old
        then (raise recovery_required, fs, true)
        else if f.cleaning
        then (raise os_error, fs, true)
        else (ok tt, fs, false)

    abbrev pub recover_state : Directory → StoredDocument → Checked DocumentState → Files → Visit
    recover_state d doc (raise e) fs = (raise e, fs, true)
    recover_state d doc (ok state) fs = recover_as state (reopen os out s home d doc state fs) fs

    abbrev pub recover_document : Directory → Checked StoredDocument → Files → Visit
    recover_document d (raise e) fs = (raise e, fs, true)
    recover_document d (ok doc) fs = elim doc.state [
      | none ↦ discard_old doc.is_old fs
      | some state ↦ recover_state d doc (state_of state) fs
    ]

    -- The body of the loop of `recover_transactions`.
    unfoldable pub recover_directory : Directory → Files → Visit
    unfolding read_document reopen conclude
    recover_directory d fs = recover_document d (read_document d) fs

  unfoldable pub recover_each : List Pending → Files → Checked Unit × Files
  unfolding recover_directory
  recover_each [] fs = (ok tt, fs)
  recover_each (p ∷ ps) fs =
      go_on (recover_directory p.backend p.refusals p.directory fs) (recover_each ps)

  -- `recover_transactions`, for what is below `backups`, if there is such a directory; the directories are
  -- sorted by name.
  unfoldable pub recover_transactions : Option (Bool × List Pending) → Files → Checked Unit × Files
  unfolding recover_each
  recover_transactions none fs = (ok tt, fs)
  recover_transactions (some (false, ps)) fs = (raise not_private, fs)
  recover_transactions (some (true, ps)) fs = recover_each ps fs
