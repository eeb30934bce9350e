-- ===== src/Examples/Recovering.antt =====
-- `recover_transactions` of mihomoctl/transaction.py after the end of a process, and after an edit.
use mihomo_userctl.Base.{
  ◌≡◌, refl, inr, ◌==◌, if◌then◌else◌, String, true, none, some, List, [], ◌∷◌, ok, raise,
  string_eq, nat_eq, option_eq,
}
use mihomo_userctl.Base.Dict
use mihomo_userctl.Errors.{Exception}
use mihomo_userctl.Files.{FilePath, path_eq, file, Files, child, lstat, exists, mkdir, Bytes}
use mihomo_userctl.Trust.{check_ancestors, make_dirs, missing_from}
use mihomo_userctl.Transaction.{Transaction, Outside, Backup_eq, no_fault, at_sync, pending}
use mihomo_userctl.Transaction.Run.{Step, write, run_steps}
use mihomo_userctl.Transaction.Atomicity.{granted}
use mihomo_userctl.Transaction.Recover.{final, records_of}
use mihomo_userctl.Transaction.Recover.Visits.{recover_directory}
use mihomo_userctl.Transaction.Destination.{check_destination}
use mihomo_userctl.Transaction.Recover.Abandoned.{
  HasBegun, IsRefused, IsRecovered, left_by, as_written, recover-abandoned,
}
use mihomo_userctl.Transaction.Recover.Drifted.{recover-drifted}
use mihomo_userctl.Examples.Disk.{
  user, user_meta, home, config, state, disk, disk-IsTree, outside, scope, begun, quiet,
}

abbrev digest : Bytes → String
digest [] = "0"
digest (n ∷ _) = if n == 3 then "3" else if n == 9 then "9" else "other"

abbrev hashing : Outside
hashing = record outside { sha256 = digest }

abbrev staging : FilePath
staging = child (child home "staging") "t1-x"

abbrev stored : Transaction
stored = record begun { stored = some (record { state = pending; journal = []; runtime = none }) }

-- The configuration is replaced, and the process ends at the `fsync` after a second file is in place.
abbrev cut : List Step
cut = write no_fault config (3 ∷ []) none ∷ write at_sync state (4 ∷ []) (some 0o600) ∷ []

abbrev left : Transaction
left = (run_steps user hashing scope cut stored).1

stored-HasBegun : HasBegun stored
stored-HasBegun = record { fresh = (refl, disk-IsTree); stored = refl; no_runtime_yet = refl }

recover-abandoned_example :
    IsRecovered disk left.files (IsRefused user hashing scope home "t1" "set" staging left) (
      recover_directory user hashing scope home quiet granted
        (left_by "t1" "set" staging left)
        left.files)
unfolding lstat Dict.get Dict.put path_eq
recover-abandoned_example =
    recover-abandoned user hashing scope home quiet "t1" "set" staging stored stored-HasBegun cut
      ((tt, inr (refl, refl)), ((tt, tt), tt)) (refl, (refl, tt))

returned :
    (recover_directory user hashing scope home quiet granted
      (left_by "t1" "set" staging left)
      left.files).0
    ≡ ok tt
unfolding recover_directory run_steps string_eq check_ancestors lstat Dict.get Dict.put path_eq
    nat_eq make_dirs missing_from exists mkdir option_eq Backup_eq Dict.remove
returned = refl

-- Only the second file is written, and then edited.
abbrev alone : Transaction
alone = (run_steps user hashing scope (write at_sync state (4 ∷ []) (some 0o600) ∷ []) stored).1

abbrev edited : Files
edited = Dict.put alone.files state (file (9 ∷ []) user_meta)

recover-drifted_example :
    (e : Exception) × (recover_directory user hashing scope home quiet granted
        (left_by "t1" "set" staging alone)
        edited
      ≡ (raise e, edited, true))
unfolding run_steps check_destination string_eq check_ancestors lstat Dict.get Dict.put path_eq
    nat_eq make_dirs missing_from exists mkdir final records_of
recover-drifted_example =
    recover-drifted user hashing scope home quiet granted (left_by "t1" "set" staging alone)
      (as_written "t1" "set" staging alone.journal) _ state _ edited (9 ∷ []) user_meta refl refl
      refl refl refl (λ h. cc) ((λ here name c is_named is_there h. cc), tt)
