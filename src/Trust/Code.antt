-- ===== src/Trust/Code.antt =====
-- What the checks of core configurations and of executables guarantee.
use Prim.Native.Nat.{bit_and}
use mihomo_userctl.Base.{
  ℕ, String, ◌≡◌, ◌↔◌, ◌⊎◌, Bool, true, false, Option, none, some, List, [], ◌∷◌, arith, ok, nat_eq,
  if◌then◌else◌,
}
use mihomo_userctl.Files.{FilePath, Meta, Node, file, Files, Os, lstat, parents}
use mihomo_userctl.Trust.{
  core_config, require_readable_core_config, executable_file, require_executable_file,
}
use mihomo_userctl.Trust.Ancestors.{AreSafe, check_ancestors_ok}
use mihomo_userctl.Trust.Private.{IsFile}

-- In system scope a root-owned file of mode 600, or of mode 640 and the service's group; in user
-- scope a file of the acting user with mode 600.
abbrev pub IsCoreConfig : Os → Option ℕ → Bool → Meta → Type 0
IsCoreConfig os service_gid true m =
    (m.uid ≡ 0) × ((m.mode ≡ 0o600) ⊎ ((m.mode ≡ 0o640) × (service_gid ≡ some m.gid)))
IsCoreConfig os service_gid false m = (m.uid ≡ os.uid) × (m.mode ≡ 0o600)

abbrev pub scope_owners : Os → Bool → List ℕ
scope_owners os system = if system then 0 ∷ [] else 0 ∷ os.uid ∷ []

module _ (os : Os) (service_gid : Option ℕ) (code : String) where
  core_config_ok :
      (system : Bool) (n : Option Node) (m : Meta)
      → (core_config os service_gid system code n ≡ ok m)
        ↔ (IsFile m n × IsCoreConfig os service_gid system m)
  unfolding core_config
  core_config_ok true (some (file b k)) m = ground arith
  core_config_ok false (some (file b k)) m = ground arith
  core_config_ok system none m = ground arith
  core_config_ok system (some _) m = ground arith

  -- A core configuration is accepted exactly when its ancestors are safe for the scope's owners
  -- and it is a regular file with the owner, mode and group that the scope asks for.
  pub require_readable_core_config_ok :
      (fs : Files) (path : FilePath) (system : Bool) (m : Meta)
      → (require_readable_core_config os service_gid fs path system code ≡ ok m) ↔ (
          AreSafe (scope_owners os system) fs (parents path)
          × IsFile m (lstat fs path)
          × IsCoreConfig os service_gid system m)
  unfolding require_readable_core_config
  require_readable_core_config_ok fs path system m = ground (
    arith,
    check_ancestors_ok fs path code (scope_owners os system),
    core_config_ok system (lstat fs path) m,
  )

module _ (os : Os) (can_execute : Bool) (code : String) where
  executable_file_ok :
      (n : Option Node) (m : Meta)
      → (executable_file os can_execute code n ≡ ok m) ↔ (
          IsFile m n
          × (can_execute ≡ true)
          × ((m.uid ≡ 0) ⊎ (m.uid ≡ os.uid))
          × (bit_and m.mode 0o022 ≡ 0))
  unfolding executable_file
  executable_file_ok none m = ground arith
  executable_file_ok (some (file b k)) m = ground arith
  executable_file_ok (some _) m = ground arith

  -- An executable is accepted exactly when it is a regular file that the user may execute, of root
  -- or of the acting user, not writable by group or others, with safe ancestors: for root and the
  -- acting user, or for root alone where it is to run as root.
  pub require_executable_file_ok :
      (fs : Files) (path : FilePath) (as_root : Bool) (m : Meta)
      → (require_executable_file os can_execute fs path code as_root ≡ ok m) ↔ (
          AreSafe (scope_owners os as_root) fs (parents path)
          × IsFile m (lstat fs path)
          × (can_execute ≡ true)
          × ((m.uid ≡ 0) ⊎ (m.uid ≡ os.uid))
          × (bit_and m.mode 0o022 ≡ 0))
  unfolding require_executable_file
  require_executable_file_ok fs path as_root m = ground (
    arith,
    check_ancestors_ok fs path code (scope_owners os as_root),
    executable_file_ok (lstat fs path) m,
  )
