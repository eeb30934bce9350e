-- ===== src/Transaction/Recover/Reopen.antt =====
-- The checks of `recover_transactions` of mihomoctl/transaction.py, and the transaction that a journal
-- describes.
use mihomo_userctl.Base.{
  option_eq, String, Bool, false, not, Option, none, some, List, [], ◌∷◌, ◌++◌, ◌==◌, ◌&&◌,
  string_eq, contains, if◌then◌else◌, ok, raise, ◌>>=◌, ◌>>◌, raise_if,
}
use mihomo_userctl.Base.Dict
use mihomo_userctl.Base.Dict.{Dict}
use mihomo_userctl.Text.{begins}
use mihomo_userctl.Files.{
  FilePath, path_eq, Bytes, Node, file, Files, Os, lstat, is_symlink, child, parent, parents,
  name_of,
}
use mihomo_userctl.Trust.{Checked}
use mihomo_userctl.Transaction.{
  Backup, Backup_eq, Record, Runtime, DocumentState, Transaction, Outside, Scope,
}
use mihomo_userctl.Transaction.Destination.{check_destination}
use mihomo_userctl.Transaction.Rollback.{is_link, has_backup}
use Prim.Native.String.{◌++◌ as ◌<>◌}
use mihomo_userctl.Transaction.Recover.{
  StoredEntry, StoredDocument, Directory, journal_invalid, current_drifted, not_private, is_one_of,
  or_invalid, check_runtime, is_pending, records_of, final, as_list, no_record, recorded,
}

module _ (os : Os) (out : Outside) (s : Scope) (home : FilePath) where
  -- The shell files that only a migration of a user may edit.
  abbrev pub allowed : Option String → List FilePath
  allowed name =
      if is_one_of ("migrate" ∷ []) name && not s.system
      then child home ".bashrc" ∷ child home ".zshrc" ∷ child home ".profile" ∷ []
      else []

  abbrev pub backup_check : Bool → Dict Backup Bytes → Bool → Record → Checked Unit
  backup_check unfinished saved misplaced r = elim r.backup [
    | none ↦ ok tt
    | some name ↦
        if misplaced
        then raise journal_invalid
        else if unfinished && not (is_link os r.type) && not (has_backup os saved r.backup)
        then raise not_private
        else ok tt
  ]

  unfoldable pub check_above : FilePath → List FilePath → Checked Unit
  check_above p [] = ok tt
  check_above p (d ∷ ds) = do
    raise_if (not (contains (parents p) d)) journal_invalid
    check_above p ds

  unfoldable pub check_entry : Bool → Transaction → StoredEntry → Checked Unit
  unfolding check_destination check_above
  check_entry unfinished tx no_record = raise journal_invalid
  check_entry unfinished tx (recorded misplaced r) = do
    check_destination os s tx r.path
    backup_check unfinished tx.saved misplaced r
    check_above r.path r.created_dirs

  unfoldable pub check_entries : Bool → Transaction → List StoredEntry → Checked Unit
  unfolding check_entry
  check_entries unfinished tx [] = ok tt
  check_entries unfinished tx (x ∷ xs) = do
    check_entry unfinished tx x
    check_entries unfinished tx xs

  abbrev pub backup_digest : Dict Backup Bytes → Option Backup → List String
  backup_digest saved none = []
  backup_digest saved (some name) = elim (Dict.get saved name) [
    | none ↦ []
    | some b ↦ out.sha256 b ∷ []
  ]

  -- The digests of all backups of a path.
  unfoldable pub backup_digests : Dict Backup Bytes → FilePath → List Record → List String
  backup_digests saved p [] = []
  backup_digests saved p (r ∷ rs) =
      let rest = backup_digests saved p rs in
      if r.path == p then backup_digest saved r.backup ++ rest else rest

  abbrev pub expected : Transaction → FilePath → Record → List String
  expected tx p last = as_list last.published_sha256 ++ backup_digests tx.saved p tx.journal

  abbrev pub is_drifted : Transaction → FilePath → Record → Option Node → Bool
  is_drifted tx p last (some (file b _)) = not (contains (expected tx p last) (out.sha256 b))
  is_drifted tx p last _ = false

  -- A file that is neither what was published nor what was saved is not overwritten.
  unfoldable pub check_drift : Transaction → Dict FilePath Record → Checked Unit
  unfolding backup_digests
  check_drift tx [] = ok tt
  check_drift tx ((p, last) ∷ rest) = do
    raise_if (is_drifted tx p last (lstat tx.files p)) current_drifted
    check_drift tx rest

  abbrev pub staging_fits : StoredDocument → Directory → Files → Bool
  staging_fits doc d fs =
      parent doc.staging == child s.cache_root "staging"
      && not (is_symlink (lstat fs doc.staging))
      && begins (name_of doc.staging.parts) (d.name <> "-")

  abbrev pub opened :
      StoredDocument
      → Directory
      → DocumentState
      → Option Runtime
      → List StoredEntry
      → Files
      → Transaction
  opened doc d state runtime entries fs = record {
    journal = records_of entries;
    finished = false;
    runtime = runtime;
    allow_paths = allowed doc.name;
    files = fs;
    staged = [];
    saved = d.saved;
    stored = some (record { state = state; journal = records_of entries; runtime = runtime });
  }

  -- The checks of a document with a state, which change nothing, and the transaction that it describes.
  unfoldable pub reopen : Directory → StoredDocument → DocumentState → Files → Checked Transaction
  unfolding check_runtime check_entries check_drift records_of final
  reopen d doc state fs = do
    runtime ← check_runtime doc.name doc.runtime
    raise_if (not (staging_fits doc d fs)) journal_invalid
    entries ← or_invalid doc.journal
    check_entries (is_pending state) (opened doc d state runtime entries fs) entries
    if is_pending state
        then check_drift (opened doc d state runtime entries fs) (final [] (records_of entries))
        else ok tt
    ok (opened doc d state runtime entries fs)
