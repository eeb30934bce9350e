-- ===== src/Credentials.antt =====
-- `write_atomic` of mihomoctl/credentials.py.
pub mod Written
pub mod Profile
pub mod Quoted
pub mod Accepted
use mihomo_userctl.Base.{ℕ, Bool, true, ◌||◌, if◌then◌else◌, ok, raise}
use mihomo_userctl.Base.Dict
use mihomo_userctl.Errors.{os_error}
use mihomo_userctl.Files.{FilePath, path_eq, Bytes, file, Files, Os, lstat, is_dir, parent}
use mihomo_userctl.Trust.{Checked, require_private_dir}

-- Which system calls of a publication the kernel refuses: the temporary file, its replacement of the
-- target, or the last `fsync`; and whether it refuses to remove the receipt.
pub record Refused : Type 0 where
  pub at_temp : Bool
  pub at_replace : Bool
  pub at_sync : Bool
  pub at_unlink : Bool

abbrev pub when_ok :
    {A : Type 0} → Checked A × Files → (Files → Checked Unit × Files) → Checked Unit × Files
when_ok (ok _, fs) next = next fs
when_ok (raise e, fs) next = (raise e, fs)

module _ (os : Os) where
  -- `os.replace` of a new file over the path
  abbrev pub replace_at : Refused → FilePath → Bytes → ℕ → Files → Checked Unit × Files
  replace_at f p b mode fs =
      if f.at_temp || f.at_replace || is_dir (lstat fs p)
      then (raise os_error, fs)
      else if f.at_sync
      then (
        raise os_error,
        Dict.put fs p (file b (record { mode = mode; uid = os.uid; gid = os.gid })),
      )
      else (ok tt, Dict.put fs p (file b (record { mode = mode; uid = os.uid; gid = os.gid })))

  -- `write_atomic`: the temporary file is gone again where the publication fails.
  unfoldable pub write_atomic : Refused → FilePath → Bytes → ℕ → Files → Checked Unit × Files
  unfolding require_private_dir lstat
  write_atomic f p b mode fs =
      when_ok (require_private_dir os fs (parent p) true "config-invalid") (replace_at f p b mode)
