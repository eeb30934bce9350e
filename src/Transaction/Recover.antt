-- ===== src/Transaction/Recover.antt =====
-- `recover_transactions` of mihomoctl/transaction.py: the journals that earlier processes left, under
-- the operation lock. A stored document may be anything; its fields that the code does not test have
-- the types with which `_persist` writes them.
pub mod Reopen
pub mod Visits
pub mod Synced
pub mod Abandoned
pub mod Drifted
pub mod Explained
pub mod Contents
pub mod Writes
pub mod Undrifted
use mihomo_userctl.Base.{
  option_eq, String, Bool, true, false, not, Option, none, some, List, [], ◌∷◌, ◌++◌, ◌==◌, ◌&&◌,
  ◌||◌, string_eq, is_some, contains, if◌then◌else◌, ok, raise, ◌>>=◌, ◌>>◌, raise_if,
}
use mihomo_userctl.Base.Dict
use mihomo_userctl.Base.Dict.{Dict}
use mihomo_userctl.Text.{begins}
use mihomo_userctl.Errors.{Exception, raised, transaction_error, value_error, os_error}
use mihomo_userctl.Files.{
  FilePath, path_eq, Bytes, Node, file, Files, Os, lstat, is_symlink, child, parent, parents,
  name_of,
}
use mihomo_userctl.Trust.{Checked, refused}
use mihomo_userctl.Transaction.{
  FileType, link, Backup, Backup_eq, Record, Phase, Runtime, DocumentState, pending, committed,
  restored, Transaction, Outside, Scope,
}
use mihomo_userctl.Transaction.Exec.{Exec}
use mihomo_userctl.Transaction.Exec
use mihomo_userctl.Transaction.Destination.{check_destination}
use mihomo_userctl.Transaction.Rollback.{Refusals, cleanup, is_link, has_backup}
use mihomo_userctl.Transaction.Run.{Backend, restore_failed_operation, restore_runtime}
use Prim.Native.String.{◌++◌ as ◌<>◌}

-- A record of a stored journal: no mapping or one with another `op`; or one whose backup is, or is not,
-- outside of the directory or behind a symbolic link.
pub data StoredEntry : Type 0 where
  no_record : StoredEntry
  recorded : Bool → Record → StoredEntry

-- A `phase` or `unit_reload` may be missing, or have another value than the code knows.
pub record StoredRuntime : Type 0 where
  pub was_running : Option Bool
  pub phase : Option (Option Phase)
  pub unit_reload : Option (Option Bool)
  pub has_more : Bool

pub data RuntimeField : Type 0 where
  no_runtime no_mapping : RuntimeField
  stored_runtime : StoredRuntime → RuntimeField

pub record StoredDocument : Type 0 where
  pub id : Option String
  pub name : Option String
  pub state : Option String
  -- exactly the keys of the old release, with a time and a list
  pub is_old : Bool
  pub runtime : RuntimeField
  pub staging : FilePath
  pub journal : Option (List StoredEntry)

-- `journal.json`, as it is found
pub data JournalFile : Type 0 where
  absent untrusted too_large no_json no_document : JournalFile
  document : StoredDocument → JournalFile

-- A directory below `backups`: whether it is a private one, its journal, and its backup files.
pub record Directory : Type 0 where
  pub name : String
  pub is_private : Bool
  pub journal : JournalFile
  pub saved : Dict Backup Bytes

abbrev pub journal_invalid : Exception
journal_invalid = raised transaction_error "transaction-journal-invalid"

abbrev pub recovery_required : Exception
recovery_required = raised transaction_error "transaction-recovery-required"

abbrev pub current_drifted : Exception
current_drifted = raised transaction_error "transaction-current-drifted"

abbrev pub not_private : Exception
not_private = refused "config-invalid"

unfoldable pub read_document : Directory → Checked StoredDocument
read_document d = if not d.is_private then raise not_private else elim d.journal [
  | absent ↦ raise recovery_required
  | untrusted ↦ raise not_private
  | too_large ↦ raise journal_invalid
  | no_json ↦ raise value_error
  | no_document ↦ raise journal_invalid
  | document doc ↦ if doc.id == some d.name then ok doc else raise journal_invalid
]

abbrev pub is_one_of : List String → Option String → Bool
is_one_of names none = false
is_one_of names (some s) = contains names s

abbrev pub runtime_operations : List String
runtime_operations =
    "policy-activate" ∷ "core-install" ∷ "core-activate" ∷ "port-retry" ∷ "service-install"
    ∷ "service-uninstall" ∷ "reset" ∷ []

abbrev pub unit_operations : List String
unit_operations = "core-install" ∷ "core-activate" ∷ "service-install" ∷ "service-uninstall" ∷ []

abbrev pub phase_of : Option (Option Phase) → Checked (Option Phase)
phase_of none = ok none
phase_of (some none) = raise journal_invalid
phase_of (some (some phase)) = ok (some phase)

abbrev pub unit_reload_of : Option String → Option (Option Bool) → Checked Bool
unit_reload_of name none = ok false
unit_reload_of name (some none) = raise journal_invalid
unit_reload_of name (some (some b)) =
    if is_one_of unit_operations name then ok b else raise journal_invalid

abbrev pub or_invalid : {A : Type 0} → Option A → Checked A
or_invalid none = raise journal_invalid
or_invalid (some a) = ok a

unfoldable pub check_runtime : Option String → RuntimeField → Checked (Option Runtime)
check_runtime name no_runtime = ok none
check_runtime name no_mapping = raise journal_invalid
check_runtime name (stored_runtime r) = do
  raise_if (not (is_one_of runtime_operations name) || r.has_more) journal_invalid
  was_running ← or_invalid r.was_running
  unit_reload ← unit_reload_of name r.unit_reload
  phase ← phase_of r.phase
  ok (some (record { was_running = was_running; phase = phase; unit_reload = unit_reload }))

-- `state == 'pending'`
abbrev pub is_pending : DocumentState → Bool
is_pending pending = true
is_pending _ = false

abbrev pub state_of : String → Checked DocumentState
state_of s =
    if s == "pending"
    then ok pending
    else if s == "committed"
    then ok committed
    else if s == "restored"
    then ok restored
    else raise journal_invalid

abbrev pub record_of : StoredEntry → List Record
record_of no_record = []
record_of (recorded _ r) = r ∷ []

unfoldable pub records_of : List StoredEntry → List Record
records_of [] = []
records_of (x ∷ xs) = record_of x ++ records_of xs

-- `{record['path']: record for record in tx.journal}`, after the entries there are
unfoldable pub final : Dict FilePath Record → List Record → Dict FilePath Record
final d [] = d
final d (r ∷ rs) = final (Dict.put d r.path r) rs

abbrev pub as_list : Option String → List String
as_list none = []
as_list (some s) = s ∷ []
