-- ===== src/Examples/Trusted.antt =====
-- The checks of mihomoctl/trust.py on a small disk.
use Prim.Native.Nat.{bit_and}
use mihomo_userctl.Base.{◌≡◌, refl, true, false, none, [], ◌∷◌, ok, string_eq, nat_eq, ◌↔◌, ◌⊎◌}
use mihomo_userctl.Base.Dict
use mihomo_userctl.Trust.{
  make_dirs, missing_from, require_private_dir, require_readable_core_config,
  require_executable_file, check_ancestors,
}
use mihomo_userctl.Trust.Ancestors.{AreSafe, check_ancestors_ok}
use mihomo_userctl.Trust.Private.{
  IsFile, IsDir, OnlyNewDirs, require_private_dir_ok, require_private_dir-OnlyNewDirs,
}
use mihomo_userctl.Trust.Code.{
  IsCoreConfig, require_readable_core_config_ok, require_executable_file_ok,
}
use mihomo_userctl.Files.{FilePath, path_eq, lstat, exists, mkdir, parent, parents}
use mihomo_userctl.Examples.Disk.{user_meta, user_dir, user, config, state, disk}

require_private_dir-OnlyNewDirs_example :
    OnlyNewDirs user disk (require_private_dir user disk (parent state) true "config-invalid").1
require_private_dir-OnlyNewDirs_example =
    require_private_dir-OnlyNewDirs user disk (parent state) "config-invalid" true

abbrev state_dir : FilePath
state_dir = parent state

require_private_dir_ok_example :
    AreSafe (0 ∷ 1000 ∷ []) disk (parents state_dir)
    × IsDir user_dir
        (lstat (require_private_dir user disk state_dir true "config-invalid").1 state_dir)
    × (user_dir.uid ≡ user.uid)
    × (bit_and user_dir.mode 0o077 ≡ 0)
unfolding require_private_dir lstat Dict.get Dict.put path_eq check_ancestors string_eq nat_eq
    make_dirs missing_from exists mkdir
require_private_dir_ok_example =
    require_private_dir_ok user disk state_dir "config-invalid" true user_dir refl

require_readable_core_config_ok_example :
    (require_readable_core_config user none disk config false "config-invalid" ≡ ok user_meta) ↔ (
      AreSafe (0 ∷ 1000 ∷ []) disk (parents config)
      × IsFile user_meta (lstat disk config)
      × IsCoreConfig user none false user_meta)
require_readable_core_config_ok_example =
    require_readable_core_config_ok user none "config-invalid" disk config false user_meta

require_executable_file_ok_example :
    (require_executable_file user true disk config "core-binary-invalid" false ≡ ok user_meta) ↔ (
      AreSafe (0 ∷ 1000 ∷ []) disk (parents config)
      × IsFile user_meta (lstat disk config)
      × (true ≡ true)
      × ((user_meta.uid ≡ 0) ⊎ (user_meta.uid ≡ user.uid))
      × (bit_and user_meta.mode 0o022 ≡ 0))
require_executable_file_ok_example =
    require_executable_file_ok user true "core-binary-invalid" disk config false user_meta

check_ancestors_ok_example :
    (check_ancestors disk state "destination-unsafe" (0 ∷ []) ≡ ok tt)
    ↔ AreSafe (0 ∷ []) disk (parents state)
check_ancestors_ok_example = check_ancestors_ok disk state "destination-unsafe" (0 ∷ [])
