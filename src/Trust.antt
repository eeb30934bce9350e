-- ===== src/Trust.antt =====
-- mihomoctl/trust.py, on Linux: which files, directories and executables the program trusts.
-- The mode in a `Meta` is what `S_IMODE` keeps of `st_mode`.
pub mod Ancestors
pub mod Private
pub mod Code
use Prim.Native.Nat.{bit_and}
use mathlib.Core.List.{reverse}
use mihomo_userctl.Base.{
  ℕ, String, Bool, true, false, not, Option, none, some, List, [], ◌∷◌, ◌&&◌, ◌||◌, ◌==◌, nat_eq,
  contains, if◌then◌else◌, Result, ok, raise, ◌>>=◌, ◌>>◌, raise_if,
}
use mihomo_userctl.Base.Dict
use mihomo_userctl.Errors.{Exception, raised, config_error}
use mihomo_userctl.Files.{
  FilePath, Meta, Node, file, symlink, dir, special, Files, Os, lstat, parents, parent, exists,
  mkdir,
}

abbrev pub Checked : Type 0 → Type 0
Checked A = Result Exception A

-- `ConfigError(code, …)`
abbrev pub refused : String → Exception
refused code = raised config_error code

-- No bit of `mask` is set in the mode.
abbrev pub lacks : ℕ → ℕ → Bool
lacks mode mask = bit_and mode mask == 0

unfoldable pub safe_writable : Meta → Bool
safe_writable m = if not (lacks m.mode 0o022) then m.uid == 0 && not (lacks m.mode 0o1000) else true

-- One round of `_check_ancestors`, on what `lstat` finds.
unfoldable pub check_ancestor : List ℕ → String → Option Node → Checked Unit
unfolding safe_writable
check_ancestor owners code none = ok tt
check_ancestor owners code (some (dir m)) =
    if not (contains owners m.uid)
    then raise (refused code)
    else if not (safe_writable m)
    then raise (refused code)
    else ok tt
check_ancestor owners code (some _) = raise (refused code)

unfoldable pub check_each : List ℕ → String → Files → List FilePath → Checked Unit
unfolding check_ancestor
check_each owners code fs [] = ok tt
check_each owners code fs (p ∷ ps) = do
  check_ancestor owners code (lstat fs p)
  check_each owners code fs ps

-- `_check_ancestors`, from the root down to the parent of the path
unfoldable pub check_ancestors : Files → FilePath → String → List ℕ → Checked Unit
unfolding check_each
check_ancestors fs path code owners = check_each owners code fs (reverse (parents path))

module _ (os : Os) where
  -- The checks of `require_private_file` on the entry itself.
  unfoldable pub private_file : String → Option Node → Checked Meta
  private_file code (some (file _ m)) =
      if not (m.uid == os.uid)
      then raise (refused code)
      else if not (m.mode == 0o600)
      then raise (refused code)
      else ok m
  private_file code _ = raise (refused code)

  unfoldable pub require_private_file : Files → FilePath → String → Checked Meta
  unfolding private_file
  require_private_file fs path code = do
    check_ancestors fs path code (0 ∷ os.uid ∷ [])
    private_file code (lstat fs path)

  -- The components that `require_private_dir` finds missing, the last one of the path first.
  unfoldable pub missing_from : Files → Bool → List String → List FilePath
  missing_from fs a [] = []
  missing_from fs a (n ∷ parts) =
      let p : FilePath = record { absolute = a; parts = n ∷ parts } in
      let rest = missing_from fs a parts in if exists os fs p then [] else p ∷ rest

  abbrev pub missing : Files → FilePath → List FilePath
  missing fs p = missing_from fs p.absolute p.parts

  -- `component.mkdir(mode=0o700)` for each of them in turn; what was made before a failure stays.
  unfoldable pub make_dirs : Files → List FilePath → Bool × Files
  make_dirs fs [] = (true, fs)
  make_dirs fs (p ∷ ps) = elim (mkdir os fs p) [ none ↦ (false, fs) | some fs' ↦ make_dirs fs' ps ]

  unfoldable pub private_dir : String → Option Node → Checked Meta
  private_dir code (some (dir m)) =
      if not (m.uid == os.uid)
      then raise (refused code)
      else if not (lacks m.mode 0o077)
      then raise (refused code)
      else ok m
  private_dir code _ = raise (refused code)

  abbrev created : Bool → Files → FilePath → Bool × Files
  created false fs path = (true, fs)
  created true fs path = make_dirs fs (reverse (missing fs path))

  abbrev pub after_create : Bool × Files → FilePath → String → Checked Meta × Files
  after_create (true, fs) path code = (private_dir code (lstat fs path), fs)
  after_create (false, fs) path code = (raise (refused code), fs)

  unfoldable pub require_private_dir : Files → FilePath → Bool → String → Checked Meta × Files
  unfolding private_dir
  require_private_dir fs path create code = elim (check_ancestors fs path code (0 ∷ os.uid ∷ [])) [
    | raise e ↦ (raise e, fs)
    | ok _ ↦ after_create (created create fs path) path code
  ]

  abbrev untrusted : Exception
  untrusted = refused "runtime-untrusted"

  -- The owner and mode that trusted code has, a file or a directory.
  abbrev trusted_code : Meta → Checked Meta
  trusted_code m =
      if not (contains (0 ∷ os.uid ∷ []) m.uid)
      then raise untrusted
      else if not (lacks m.mode 0o022)
      then raise untrusted
      else ok m

  unfoldable pub trusted_file : Option Node → Checked Meta
  trusted_file (some (file _ m)) = trusted_code m
  trusted_file _ = raise untrusted

  unfoldable pub require_trusted_code_file : Files → FilePath → Checked Meta
  unfolding trusted_file
  require_trusted_code_file fs path = trusted_file (lstat fs path)

  unfoldable pub trusted_dir : Option Node → Checked Meta
  trusted_dir (some (dir m)) = trusted_code m
  trusted_dir _ = raise untrusted

  unfoldable pub require_trusted_dir : Files → FilePath → Checked Meta
  unfolding trusted_dir
  require_trusted_dir fs path = trusted_dir (lstat fs path)

  -- `service_gid` is the group of the account `mihomoctl`, if there is one.
  unfoldable pub core_config : Option ℕ → Bool → String → Option Node → Checked Meta
  core_config service_gid true code (some (file _ m)) =
      if not (m.uid == 0)
      then raise (refused code)
      else if not (m.mode == 0o600 || m.mode == 0o640)
      then raise (refused code)
      else if m.mode == 0o640
      then elim service_gid [
        | none ↦ raise (refused code)
        | some gid ↦ if m.gid == gid then ok m else raise (refused code)
      ]
      else ok m
  core_config service_gid false code (some (file _ m)) =
      if not (m.uid == os.uid)
      then raise (refused code)
      else if not (m.mode == 0o600)
      then raise (refused code)
      else ok m
  core_config service_gid system code _ = raise (refused code)

  unfoldable pub require_readable_core_config :
      Option ℕ → Files → FilePath → Bool → String → Checked Meta
  unfolding core_config
  require_readable_core_config service_gid fs path system code = do
    check_ancestors fs path code (if system then 0 ∷ [] else 0 ∷ os.uid ∷ [])
    core_config service_gid system code (lstat fs path)

  -- `can_execute` is `os.access(path, os.X_OK)`.
  unfoldable pub executable_file : Bool → String → Option Node → Checked Meta
  executable_file can_execute code (some (file _ m)) =
      if not can_execute
      then raise (refused code)
      else if not (contains (0 ∷ os.uid ∷ []) m.uid)
      then raise (refused code)
      else if not (lacks m.mode 0o022)
      then raise (refused code)
      else ok m
  executable_file can_execute code _ = raise (refused code)

  unfoldable pub require_executable_file : Bool → Files → FilePath → String → Bool → Checked Meta
  unfolding executable_file
  require_executable_file can_execute fs path code as_root = do
    m ← executable_file can_execute code (lstat fs path)
    check_ancestors fs path code (if as_root then 0 ∷ [] else 0 ∷ os.uid ∷ [])
    ok m

  abbrev user_writable : Meta → Bool
  user_writable m = m.uid == os.uid && not (lacks m.mode 0o200)

  unfoldable pub is_user_writable : Files → FilePath → Bool
  is_user_writable fs path = elim (lstat fs path) [
    | none ↦ true
    | some (file _ m) ↦ user_writable m
    | some (symlink _ m) ↦ user_writable m
    | some (dir m) ↦ user_writable m
    | some (special m) ↦ user_writable m
  ]
