-- ===== src/Backend/Store.antt =====
-- `read_state`, `_write_state` and `_clear_state` of mihomoctl/lifecycle/process.py.
use mihomo_userctl.Base.{
  ℕ, String, Bool, true, false, not, Option, none, some, ◌||◌, ltb, length, if◌then◌else◌, ok,
  raise, ◌>>=◌,
}
use mihomo_userctl.Base.Dict
use mihomo_userctl.Errors.{os_error}
use mihomo_userctl.Files.{
  FilePath, path_eq, Bytes, Node, file, dir, Files, Os, lstat, exists, is_symlink, parent,
}
use mihomo_userctl.Trust.{Checked, require_private_dir, require_private_file}
use mihomo_userctl.Yaml.{Yaml, Entries}
use mihomo_userctl.Identity.{ProcessIdentity}
use mihomo_userctl.Credentials.{Refused, when_ok, write_atomic}
use mihomo_userctl.Backend.{Core, validate, payload}

-- The paths of the scope, and Python's `json`: the text of a mapping, as it is written, and the value
-- of a text, if it is one.
pub record Place : Type 0 where
  pub state_root : FilePath
  pub runtime_state : FilePath
  pub dumps : Entries → Bytes
  pub loads : Bytes → Option Yaml

abbrev receipt_code : String
receipt_code = "runtime-state-untrusted"

module _ (os : Os) (core : Core) (place : Place) where
  abbrev pub decoded : Option Node → Option Yaml
  decoded (some (file b _)) = if ltb 65536 (length b) then none else place.loads b
  decoded _ = none

  abbrev pub found : FilePath → Files → Bool
  found p fs = exists os fs p || is_symlink (lstat fs p)

  -- The receipt itself, once its directory was checked.
  unfoldable pub read_receipt : Files → Checked (Option ProcessIdentity)
  unfolding exists lstat require_private_file validate
  read_receipt fs = if not (found place.runtime_state fs) then ok none else (do
    _ ← require_private_file os fs place.runtime_state receipt_code
    id ← validate core (decoded (lstat fs place.runtime_state))
    ok (some id))

  unfoldable pub read_state : Files → Checked (Option ProcessIdentity)
  unfolding read_receipt exists lstat require_private_dir
  read_state fs =
      if found place.state_root fs
      then (do
        _ ← (require_private_dir os fs place.state_root false receipt_code).0
        read_receipt fs)
      else read_receipt fs

  unfoldable pub write_state : Refused → ProcessIdentity → ℕ → Files → Checked Unit × Files
  unfolding write_atomic payload
  write_state f id now fs =
      when_ok (require_private_dir os fs (parent place.runtime_state) true "config-invalid")
        (write_atomic os f place.runtime_state (place.dumps (payload core id now)) 0o600)

  abbrev pub unlink_at : Refused → Option Node → Files → Checked Unit × Files
  unlink_at f none fs = (ok tt, fs)
  unlink_at f (some (dir _)) fs = (raise os_error, fs)
  unlink_at f (some _) fs =
      if f.at_unlink then (raise os_error, fs) else (ok tt, Dict.remove fs place.runtime_state)

  unfoldable pub clear_state : Refused → Files → Checked Unit × Files
  unfolding lstat
  clear_state f fs = unlink_at f (lstat fs place.runtime_state) fs
