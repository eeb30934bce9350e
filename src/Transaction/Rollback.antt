-- ===== src/Transaction/Rollback.antt =====
-- `commit`, `rollback` and `_restore` of mihomoctl/transaction.py.
use mathlib.Core.List.{reverse}
use mihomo_userctl.Base.{
  ℕ, String, Bool, true, false, not, Option, none, some, List, [], ◌∷◌, ◌==◌, nat_eq, ◌&&◌, ◌||◌,
  if◌then◌else◌, ok, raise, is_some,
}
use mihomo_userctl.Base.Dict
use mihomo_userctl.Base.Dict.{Dict}
use mihomo_userctl.Errors.{
  Exception, raised, rollback_failed_error, os_error, value_error, key_error, other_error,
}
use mihomo_userctl.Files.{
  FilePath, path_eq, Bytes, Meta, symlink, dir, Files, Os, lstat, has_parent, has_child, present,
  remove_tree,
}
use mihomo_userctl.Trust.{Checked}
use mihomo_userctl.Transaction.{
  Op, publish, delete, FileType, link, directory, Backup, Backup_eq, Record, committed, restored,
  no_fault,
}
use mihomo_userctl.Transaction.Exec.{Exec, ◌>>=◌, ◌>>◌, pure, throw, gets, modify, on_files}
use mihomo_userctl.Transaction.Publish.{persist, atomic_write, chown, unlink}

-- A step on the managed files that may raise, and the next one.
abbrev pub FileStep : Type 0
FileStep = Files → Checked Unit × Files

abbrev pub proceed : Checked Unit × Files → FileStep → Checked Unit × Files
proceed (ok _, fs) k = k fs
proceed (raise e, fs) k = (raise e, fs)

infixl 6 ◌then◌
abbrev pub ◌then◌ : FileStep → FileStep → FileStep
◌then◌ m k fs = proceed (m fs) k

-- `Path(directory).rmdir()`, where a missing directory and one in use are passed over
unfoldable pub remove_dir : FilePath → FileStep
remove_dir d fs = elim (lstat fs d) [
  | none ↦ (ok tt, fs)
  | some (dir m) ↦ (ok tt, if has_child fs d then fs else Dict.remove fs d)
  | some _ ↦ (raise os_error, fs)
]

unfoldable pub remove_dirs : List FilePath → FileStep
unfolding remove_dir
remove_dirs [] fs = (ok tt, fs)
remove_dirs (d ∷ ds) fs = proceed (remove_dir d fs) (remove_dirs ds)

-- `if path.exists() or path.is_symlink(): path.unlink()`
abbrev pub unlink_present : FilePath → FileStep
unlink_present p fs = if present (lstat fs p) then unlink p fs else (ok tt, fs)

-- The same, with `shutil.rmtree` for a directory.
unfoldable pub clear : FilePath → FileStep
unfolding unlink remove_tree
clear p fs = elim (lstat fs p) [
  | none ↦ (ok tt, fs)
  | some (dir m) ↦ (ok tt, remove_tree fs p)
  | some _ ↦ unlink p fs
]

module _ (os : Os) where
  -- `os.symlink(target, path)`
  unfoldable pub make_link : Option String → FilePath → FileStep
  make_link none p fs = (raise key_error, fs)
  make_link (some t) p fs =
      if present (lstat fs p) || not (has_parent fs p)
      then (raise os_error, fs)
      else (ok tt, Dict.put fs p (symlink t (record { mode = 0o777; uid = os.uid; gid = os.gid })))

  -- The end of `_restore`: give the file back to its owner, or fail.
  unfoldable pub give_back : Option Meta → FilePath → FileStep
  unfolding chown
  give_back none p fs = (ok tt, fs)
  give_back (some m) p fs =
      if os.uid == m.uid && os.gid == m.gid
      then (ok tt, fs)
      else if os.uid == 0
      then chown p m.uid m.gid fs
      else (raise os_error, fs)

  abbrev pub mode_of : Option Meta → ℕ
  mode_of none = 0o600
  mode_of (some m) = m.mode

  -- `_restore` of a record whose type is not "symlink"
  unfoldable pub restore_file : Dict Backup Bytes → Record → FileStep
  unfolding atomic_write give_back
  restore_file saved r fs = elim r.backup [
    | none ↦ (raise other_error, fs)
    | some name ↦ elim (Dict.get saved name) [
      | none ↦ (raise os_error, fs)
      | some content ↦
          proceed (atomic_write os no_fault r.path content (mode_of r.meta) fs)
            (give_back r.meta r.path)
    ]
  ]

  abbrev pub restore_typed : Option FileType → Dict Backup Bytes → Record → FileStep
  restore_typed (some link) saved r = unlink_present r.path then make_link r.symlink_target r.path
  restore_typed _ saved r = restore_file saved r

  -- `_restore(path, backup, record)`
  unfoldable pub restore : Dict Backup Bytes → Record → FileStep
  unfolding restore_file make_link unlink
  restore saved r = restore_typed r.type saved r

  abbrev pub has_backup : Dict Backup Bytes → Option Backup → Bool
  has_backup saved none = false
  has_backup saved (some name) = is_some (Dict.get saved name)

  abbrev pub is_link : Option FileType → Bool
  is_link (some link) = true
  is_link _ = false

  -- A publication over an existing entry.
  abbrev pub undo_replace : Dict Backup Bytes → Record → FileStep
  undo_replace saved r fs =
      if is_link r.type || is_some r.symlink_target
      then (unlink_present r.path then make_link r.symlink_target r.path) fs
      else elim r.type [
        | some directory ↦ clear r.path fs
        | _ ↦ if has_backup saved r.backup then restore saved r fs else unlink_present r.path fs
      ]

  abbrev pub undo_by : Op → Bool → Dict Backup Bytes → Record → FileStep
  undo_by publish true saved r = clear r.path then remove_dirs r.created_dirs
  undo_by publish false saved r = undo_replace saved r
  undo_by delete created saved r = restore saved r

  -- The body of the loop of `rollback`.
  unfoldable pub undo : Dict Backup Bytes → Record → FileStep
  unfolding clear remove_dirs restore
  undo saved r = undo_by r.op r.created saved r

  -- What the loop's handler catches.
  abbrev pub is_caught : Exception → Bool
  is_caught os_error = true
  is_caught value_error = true
  is_caught key_error = true
  is_caught _ = false

  abbrev pub handled :
      FilePath → List FilePath → Checked Unit × Files → Checked (List FilePath) × Files
  handled p failures (ok _, fs) = (ok failures, fs)
  handled p failures (raise e, fs) = (if is_caught e then ok (p ∷ failures) else raise e, fs)

  abbrev pub and_then :
      Checked (List FilePath) × Files
      → (List FilePath → Files → Checked (List FilePath) × Files)
      → Checked (List FilePath) × Files
  and_then (ok failures, fs) k = k failures fs
  and_then (raise e, fs) k = (raise e, fs)

  -- The loop over the reversed journal, with the paths that failed so far. `refused` tells for
  -- which records the kernel refuses the first system call.
  unfoldable pub undo_all :
      (Record → Bool)
      → Dict Backup Bytes
      → List Record
      → List FilePath
      → Files
      → Checked (List FilePath) × Files
  unfolding undo
  undo_all refused saved [] failures fs = (ok failures, fs)
  undo_all refused saved (r ∷ rs) failures fs =
      and_then
        (handled r.path failures (if refused r then (raise os_error, fs) else undo saved r fs))
        (λ failures' fs'. undo_all refused saved rs failures' fs')

-- What the kernel refuses while a transaction ends: the undoing of some records, the writing of
-- `journal.json`, or the removal of the private directories.
pub record Refusals : Type 0 where
  pub undoing : Record → Bool
  pub persisting : Option Exception
  pub cleaning : Bool

-- `_cleanup`
unfoldable pub cleanup : Bool → Exec Unit
cleanup refused tx =
    if refused
    then (raise os_error, tx)
    else (ok tt, record tx { staged = []; saved = []; stored = none })

abbrev pub rollback_failed : Exception
rollback_failed = raised rollback_failed_error "rollback-failed"

abbrev pub finish_with : Bool → Refusals → Exec Unit
finish_with false no_more = pure tt
finish_with true f = do modify (λ tx. record tx { finished = true }); cleanup f.cleaning

abbrev pub report : List FilePath → Exec Unit
report [] = pure tt
report (p ∷ ps) = throw rollback_failed

unfoldable pub rollback : Os → Refusals → Bool → Exec Unit
unfolding undo_all persist cleanup
rollback os f finish = do
  journal ← gets (λ tx. tx.journal)
  saved ← gets (λ tx. tx.saved)
  failures ← on_files (undo_all os f.undoing saved (reverse journal) [])
  report failures
  persist f.persisting restored
  finish_with finish f

unfoldable pub commit : Refusals → Exec Unit
unfolding persist cleanup
commit f = do
  persist f.persisting committed
  modify (λ tx. record tx { finished = true })
  cleanup f.cleaning
