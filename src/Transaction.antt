-- ===== src/Transaction.antt =====
-- mihomoctl/transaction.py: the state of a transaction. Its operations are in the modules below.
-- The transaction's own private directories are components beside the managed files: `staged` is
-- its staging directory, `saved` the backup files and `stored` the parsed `journal.json` of its
-- backup directory.
pub mod Exec
pub mod Destination
pub mod Publish
pub mod Rollback
pub mod Directories
pub mod Restorable
pub mod Undo
pub mod Settled
pub mod Effects
pub mod Deletes
pub mod Operations
pub mod Run
pub mod Kept
pub mod Atomicity
pub mod Outcome
pub mod Failures
pub mod Recover
use mihomo_userctl.Base.{
  ℕ, String, Bool, true, false, Option, none, some, List, [], ◌∷◌, Eq, string_discrete,
}
use mihomo_userctl.Base.Dict.{Dict}
use mihomo_userctl.Errors.{Exception}
use mihomo_userctl.Files.{FilePath, Bytes, Meta, Files}
use native.Mathlib.Decide.{ℕ_discrete}

pub data Op : Type 0 where
  publish delete : Op

-- record["type"]
pub data FileType : Type 0 where
  regular link directory : FileType

-- The name "%d-%s" of a backup file: the length of the journal and the flattened path.
pub record Backup : Type 0 where
  pub number : ℕ
  pub flat : String

instance unfoldable pub Backup_eq : Eq Backup
unfolding string_discrete ℕ_discrete
Backup_eq = record { dec = hlevel (string_discrete, ℕ_discrete) }

-- A journal record; an `Option` is a key that may be missing.
pub record Record : Type 0 where
  pub op : Op
  pub path : FilePath
  pub type : Option FileType
  pub symlink_target : Option String
  pub meta : Option Meta
  pub backup : Option Backup
  pub created : Bool
  pub created_dirs : List FilePath
  pub published_sha256 : Option String

pub data Phase : Type 0 where
  prepared stopping starting unverified : Phase

pub record Runtime : Type 0 where
  pub was_running : Bool
  pub phase : Option Phase
  pub unit_reload : Bool

pub data DocumentState : Type 0 where
  pending committed restored : DocumentState

-- What `journal.json` says of the transaction.
pub record Document : Type 0 where
  pub state : DocumentState
  pub journal : List Record
  pub runtime : Option Runtime

pub record Transaction : Type 0 where
  pub journal : List Record
  pub finished : Bool
  pub runtime : Option Runtime
  pub allow_paths : List FilePath
  pub files : Files
  pub staged : Dict String Bytes
  pub saved : Dict Backup Bytes
  pub stored : Option Document

-- What the program takes from elsewhere: SHA-256, UTF-8, how a path is flattened into a file
-- name, and the text behind a symbolic link (`none` if it cannot be read).
pub record Outside : Type 0 where
  pub sha256 : Bytes → String
  pub encode : String → Bytes
  pub flatten : FilePath → String
  -- the text of a file, in UTF-8 again, where it is UTF-8
  pub read_text : Bytes → Option Bytes
  -- what the target of a link has
  pub read_link : Files → FilePath → Option Bytes

-- The roots of the scope that a transaction works for.
pub record Scope : Type 0 where
  pub system : Bool
  pub config_root : FilePath
  pub data_root : FilePath
  pub state_root : FilePath
  pub cache_root : FilePath
  pub config_home : FilePath

-- The system call of an operation at which the kernel reports an error, if any does. A write has
-- one before the new file is in place and one after.
pub data Fault : Type 0 where
  no_fault : Fault
  at_stage : Fault
  at_backup : Fault
  at_mkdir : ℕ → Fault
  at_persist : Exception → Fault
  at_write : Fault
  at_sync : Fault
  at_chown : Fault
