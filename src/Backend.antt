-- ===== src/Backend.antt =====
-- The receipt of the process backend, mihomoctl/lifecycle/process.py: its text, and the checks that
-- it passes before anything is done with it.
pub mod Store
pub mod Receipt
pub mod Lifecycle
pub mod Held
pub mod Cleared
pub mod Observed
pub mod Written
use mihomo_userctl.Base.{
  ℕ, String, Bool, true, false, not, Option, none, some, List, [], ◌∷◌, ◌==◌, ◌&&◌, ◌||◌, string_eq,
  nat_eq, leb, if◌then◌else◌, ok, raise, ◌>>=◌, ◌>>◌, raise_if,
}
use mihomo_userctl.Errors.{Exception, state_error, other_error, raised}
use mihomo_userctl.Text.{begins}
use mihomo_userctl.Trust.{Checked}
use mihomo_userctl.Yaml.{Yaml, null, text, int, mapping, Entries, end, entry, get}
use mihomo_userctl.Identity.{ProcessIdentity}

-- What the manager selects, and the acting user; `resolve` is `str(Path(…).resolve())`.
pub record Core : Type 0 where
  pub binary : Option String
  pub config : Option String
  pub resolve : String → String
  pub uid : ℕ

abbrev pub invalid : Exception
invalid = raised state_error "runtime-state-invalid"

abbrev pub differs : Exception
differs = raised state_error "runtime-state-mismatch"

abbrev pub value_of : Option String → Yaml
value_of none = null
value_of (some s) = text s

-- `data.get(key) == value`, for a text or `None`
unfoldable pub equals : Option Yaml → Option String → Bool
equals none none = true
equals (some null) none = true
equals (some (text s)) (some t) = s == t
equals _ _ = false

-- An integer, which is no truth value and not negative, that passes the test.
unfoldable pub number_where : (ℕ → Bool) → Option Yaml → Checked ℕ
number_where good (some (int n)) = if good n then ok n else raise invalid
number_where good _ = raise invalid

-- `Path(exe).is_absolute()`
unfoldable pub absolute_text : Option Yaml → Checked String
absolute_text (some (text s)) = if begins s "/" then ok s else raise invalid
absolute_text _ = raise invalid

abbrev pub resolve_some : (String → String) → Option String → Checked String
resolve_some resolve none = raise other_error
resolve_some resolve (some b) = ok (resolve b)

module _ (core : Core) where
  unfoldable pub resolved_binary : Checked String
  resolved_binary = resolve_some core.resolve core.binary

  -- The checks of `read_state` on the mapping that was read.
  unfoldable pub validate_mapping : Entries → Checked ProcessIdentity
  unfolding get equals number_where absolute_text resolved_binary
  validate_mapping d = do
    raise_if (not (equals (get d "backend") (some "process"))) invalid
    pid ← number_where (leb 2) (get d "pid")
    uid ← number_where (λ n. n == core.uid) (get d "uid")
    start_time ← number_where (leb 1) (get d "start_time")
    exe ← absolute_text (get d "exe")
    raise_if (not (equals (get d "config") core.config)) differs
    raise_if (not (equals (get d "binary") core.binary)) differs
    binary ← resolved_binary
    raise_if (not (exe == binary)) differs
    ok (record { pid = pid; uid = uid; start_time = start_time; exe = exe; config = core.config })

  unfoldable pub validate : Option Yaml → Checked ProcessIdentity
  unfolding validate_mapping
  validate (some (mapping d)) = validate_mapping d
  validate _ = raise invalid

  -- What `_write_state` writes, in the order of `sort_keys=True`.
  unfoldable pub payload : ProcessIdentity → ℕ → Entries
  payload id now = entry "backend" (text "process") (
      entry "binary" (value_of core.binary) (
        entry "config" (value_of core.config) (
          entry "exe" (text id.exe) (
            entry "pid" (int id.pid) (
              entry "start_time" (int id.start_time)
                (entry "started_at" (int now) (entry "uid" (int id.uid) end)))))))
