-- ===== src/Transaction/Publish.antt =====
-- `stage_bytes`, `publish`, `write_bytes`, `write_text` and `delete` of mihomoctl/transaction.py.
-- An operation returns its result or exception beside the transaction that it leaves.
use Prim.Native.String.{◌++◌ as ◌<>◌}
use mathlib.Core.List.{reverse}
use mihomo_userctl.Base.{
  ℕ, String, Bool, true, false, not, Option, none, some, List, [], ◌∷◌, ◌++◌, ◌==◌, ◌&&◌, nat_eq,
  length, take, ◌||◌, is_some, if◌then◌else◌, string_eq, ok, raise,
}
use mihomo_userctl.Base.Dict
use mihomo_userctl.Errors.{Exception, raised, transaction_error, os_error, value_error}
use mihomo_userctl.Files.{
  FilePath, path_eq, Bytes, Meta, Node, file, symlink, dir, special, Files, Os, lstat, parent,
  name_of, is_symlink, is_dir, has_parent,
}
use mihomo_userctl.Trust.{Checked, missing, make_dirs}
use mihomo_userctl.Transaction.{
  Op, publish as publish_op, delete as delete_op, regular, link, Backup, Backup_eq, Record, pending,
  DocumentState, Transaction, Outside, Scope, Fault, at_stage, at_backup, at_mkdir, at_persist,
  at_write, at_sync, at_chown,
}
use mihomo_userctl.Transaction.Exec.{Exec, ◌>>=◌, ◌>>◌, pure, throw, gets, modify, check, on_files}
use mihomo_userctl.Transaction.Destination.{check_destination}

-- `_persist(state)`, where `refusal` is what it raises, if it does
unfoldable pub persist : Option Exception → DocumentState → Exec Unit
persist (some e) state tx = (raise e, tx)
persist none state tx = (
  ok tt,
  record tx {
    stored = some (record { state = state; journal = tx.journal; runtime = tx.runtime });
  },
)

abbrev pub persist_fault : Fault → Option Exception
persist_fault (at_persist e) = some e
persist_fault _ = none

-- Whether the kernel refuses a call that is tested here by name.
abbrev pub fails_stage : Fault → Bool
fails_stage at_stage = true
fails_stage _ = false

abbrev pub fails_backup : Fault → Bool
fails_backup at_backup = true
fails_backup _ = false

abbrev pub fails_write : Fault → Bool
fails_write at_write = true
fails_write _ = false

abbrev pub fails_sync : Fault → Bool
fails_sync at_sync = true
fails_sync _ = false

abbrev pub fails_chown : Fault → Bool
fails_chown at_chown = true
fails_chown _ = false

-- `raise OSError` where the kernel refuses
abbrev pub refuse_if : Bool → Exec Unit
refuse_if refused tx = (if refused then raise os_error else ok tt, tx)

-- `_atomic_write_bytes`: a new file of the acting user takes the place of the old one at once.
unfoldable pub atomic_write : Os → Fault → FilePath → Bytes → ℕ → Files → Checked Unit × Files
atomic_write os fault p content mode fs =
    let fs' = Dict.put fs p (file content (record { mode = mode; uid = os.uid; gid = os.gid })) in
    if fails_write fault || not (has_parent fs p)
    then (raise os_error, fs)
    else if is_symlink (lstat fs p)
    then (raise (raised transaction_error "refuse-symlink-destination"), fs)
    else if is_dir (lstat fs p)
    then (raise os_error, fs)
    else if fails_sync fault
    then (raise os_error, fs')
    else (ok tt, fs')

-- `os.chown(path, uid, gid)`
abbrev pub owned : ℕ → ℕ → Meta → Meta
owned uid gid m = record { mode = m.mode; uid = uid; gid = gid }

unfoldable pub chown : FilePath → ℕ → ℕ → Files → Checked Unit × Files
chown p uid gid fs = elim (lstat fs p) [
  | none ↦ (raise os_error, fs)
  | some (file b m) ↦ (ok tt, Dict.put fs p (file b (owned uid gid m)))
  | some (symlink t m) ↦ (ok tt, Dict.put fs p (symlink t (owned uid gid m)))
  | some (dir m) ↦ (ok tt, Dict.put fs p (dir (owned uid gid m)))
  | some (special m) ↦ (ok tt, Dict.put fs p (special (owned uid gid m)))
]

-- `path.unlink()` of a file or a link
unfoldable pub unlink : FilePath → Files → Checked Unit × Files
unlink p fs = elim (lstat fs p) [
  | none ↦ (raise os_error, fs)
  | some (dir m) ↦ (raise os_error, fs)
  | some _ ↦ (ok tt, Dict.remove fs p)
]

-- The `mkdir` calls of `publish`, of which the kernel may refuse one.
abbrev pub make_some : Os → Fault → List FilePath → Files → Checked Unit × Files
make_some os (at_mkdir n) dirs fs = (raise os_error, (make_dirs os fs (take n dirs)).1)
make_some os _ dirs fs =
    let (done, fs') = make_dirs os fs dirs in (if done then ok tt else raise os_error, fs')

-- Reading a file that may be missing.
abbrev pub content_of : Option Bytes → Checked Bytes
content_of none = raise os_error
content_of (some b) = ok b

module _ (os : Os) (out : Outside) (fault : Fault) where
  -- `stage_bytes(name, data)`
  unfoldable pub stage : String → Bytes → Exec Unit
  stage name content = do
    refuse_if (fails_stage fault)
    modify (λ tx. record tx { staged = Dict.put tx.staged name content })

  -- `_backup(path, record)` of a file, opened with `O_EXCL`
  unfoldable pub save : FilePath → Bytes → Exec Backup
  save p content tx =
      let name : Backup = record { number = length tx.journal; flat = out.flatten p } in
      if fails_backup fault || is_some (Dict.get tx.saved name)
      then (raise os_error, tx)
      else (ok name, record tx { saved = Dict.put tx.saved name content })

  -- `_backup(path, record)` of a symbolic link: the journal has its target.
  unfoldable pub save_link : FilePath → Exec Backup
  save_link p tx =
      if fails_backup fault
      then (raise os_error, tx)
      else (ok (record { number = length tx.journal; flat = out.flatten p }), tx)

  -- staged.read_bytes()
  abbrev pub read_staged : String → Exec Bytes
  read_staged name tx = (content_of (Dict.get tx.staged name), tx)

  unfoldable pub append_record : Record → Exec Unit
  append_record r = modify (λ tx. record tx { journal = tx.journal ++ r ∷ [] })

  -- `if existed and os.geteuid() == 0: os.chown(…)`
  abbrev pub restore_owner : FilePath → Option Meta → Files → Checked Unit × Files
  restore_owner p none fs = (ok tt, fs)
  restore_owner p (some m) fs =
      if os.uid == 0
      then if fails_chown fault then (raise os_error, fs) else chown p m.uid m.gid fs
      else (ok tt, fs)

  -- The part of `publish` from the creation of directories on. `before` is the metadata of the
  -- file that is replaced, and `r` its record as far as it is filled in.
  unfoldable pub write_recorded : String → FilePath → ℕ → Option Meta → Record → Exec Unit
  unfolding append_record persist atomic_write chown
  write_recorded staged p mode before r = do
    dirs ← gets (λ tx. missing os tx.files (parent p))
    on_files (make_some os fault (reverse dirs))
    content ← read_staged staged
    append_record (record r { created_dirs = dirs; published_sha256 = some (out.sha256 content) })
    persist (persist_fault fault) pending
    on_files (atomic_write os fault p content mode)
    on_files (restore_owner p before)

  abbrev pub blank : Op → FilePath → Record
  blank op p = record {
    op = op;
    path = p;
    type = none;
    symlink_target = none;
    meta = none;
    backup = none;
    created = false;
    created_dirs = [];
    published_sha256 = none;
  }

  abbrev pub or_mode : Option ℕ → ℕ → ℕ
  or_mode none m = m
  or_mode (some m) _ = m

  -- What `publish` does by what is at the destination.
  unfoldable pub publish_over : String → FilePath → Option ℕ → Option Node → Exec Unit
  unfolding write_recorded save
  publish_over staged p mode none =
      write_recorded staged p (or_mode mode 0o600) none
        (record (blank publish_op p) { created = true })
  publish_over staged p mode (some (file b m)) = do
    name ← save p b
    write_recorded staged p (or_mode mode m.mode) (some m)
        (record (blank publish_op p) { type = some regular; meta = some m; backup = some name })
  publish_over staged p mode (some _) =
      throw (raised transaction_error "refuse-non-file-destination")

  module _ (s : Scope) where
    unfoldable pub publish : String → FilePath → Option ℕ → Exec Unit
    unfolding publish_over
    publish staged p mode = do
      check (λ tx. check_destination os s tx p)
      found ← gets (λ tx. lstat tx.files p)
      publish_over staged p mode found

    -- The staged file is named after the destination.
    abbrev pub stage_name : FilePath → String
    stage_name p = "publish-" <> name_of p.parts

    unfoldable pub write_bytes : FilePath → Bytes → Option ℕ → Exec Unit
    unfolding stage publish
    write_bytes p content mode = do stage (stage_name p) content; publish (stage_name p) p mode

    unfoldable pub write_text : FilePath → String → Option ℕ → Exec Unit
    unfolding write_bytes
    write_text p text mode = write_bytes p (out.encode text) mode

    -- `text.startswith(require_managed_marker)`, on the encoded texts
    abbrev pub begins : Bytes → Bytes → Bool
    begins b [] = true
    begins [] (m ∷ ms) = false
    begins (c ∷ b) (m ∷ ms) = c == m && begins b ms

    abbrev pub refuse_delete : Exception
    refuse_delete = raised transaction_error "refuse-delete"

    -- A `UnicodeDecodeError`, which `delete` does not catch, is a `ValueError`.
    abbrev pub decoded : Option Bytes → Checked Bytes
    decoded none = raise value_error
    decoded (some b) = ok b

    -- The text that the marker is looked for in.
    abbrev pub text_at : FilePath → Node → Transaction → Checked Bytes
    text_at p (file b m) tx = decoded (out.read_text b)
    text_at p n tx = elim (out.read_link tx.files p) [
      | none ↦ raise refuse_delete
      | some b ↦ decoded (out.read_text b)
    ]

    abbrev pub check_marker : FilePath → Option String → Node → Transaction → Checked Unit
    check_marker p none n tx = ok tt
    check_marker p (some marker) n tx = elim (text_at p n tx) [
      | raise e ↦ raise e
      | ok b ↦ if begins b (out.encode marker) then ok tt else raise refuse_delete
    ]

    -- Journal, then unlink.
    abbrev pub delete_recorded : FilePath → Record → Exec Bool
    delete_recorded p r = do
      append_record r
      persist (persist_fault fault) pending
      refuse_if (fails_write fault)
      on_files (unlink p)
      pure true

    unfoldable pub delete_at : FilePath → Option String → Option Node → Exec Bool
    unfolding save save_link append_record persist unlink
    delete_at p marker none = pure false
    delete_at p marker (some (dir m)) = throw (raised transaction_error "refuse-directory-delete")
    delete_at p marker (some (file b m)) = do
      check (check_marker p marker (file b m))
      name ← save p b
      delete_recorded p
          (record (blank delete_op p) { type = some regular; meta = some m; backup = some name })
    delete_at p marker (some (symlink t m)) = do
      check (check_marker p marker (symlink t m))
      name ← save_link p
      delete_recorded p (record (blank delete_op p) {
        type = some link;
        symlink_target = some t;
        meta = some m;
        backup = some name;
      })
    delete_at p marker (some (special m)) = do
      check (check_marker p marker (special m))
      throw (raised transaction_error "refuse-unusual-file")

    unfoldable pub delete : FilePath → Option String → Exec Bool
    unfolding delete_at
    delete p marker = do
      check (λ tx. check_destination os s tx p)
      found ← gets (λ tx. lstat tx.files p)
      delete_at p marker found
