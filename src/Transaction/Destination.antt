-- ===== src/Transaction/Destination.antt =====
-- `_check_destination` of mihomoctl/transaction.py: the paths that a transaction may write.
use mihomo_userctl.Base.{
  ◌≡◌, ◌↔◌, ◌⊎◌, Bool, true, false, not, List, [], ◌∷◌, ◌&&◌, any, contains, arith, if◌then◌else◌,
  string_eq, ok, raise, ◌>>◌, raise_if,
}
use mihomo_userctl.Errors.{Exception, raised, transaction_error}
use mihomo_userctl.Files.{FilePath, path_eq, Os, lstat, is_symlink, relative_to, child, parents}
use mihomo_userctl.Trust.{Checked, check_ancestors}
use mihomo_userctl.Trust.Ancestors.{AreSafe, check_ancestors_ok}
use mihomo_userctl.Transaction.{Transaction, Scope}

abbrev root : FilePath
root = record { absolute = true; parts = [] }

abbrev pub managed_roots : Scope → List FilePath
managed_roots s =
    s.config_root
    ∷ s.data_root
    ∷ s.state_root
    ∷ s.cache_root
    ∷ (if s.system
        then child (child root "etc") "mihomoctl"
          ∷ child (child (child root "etc") "systemd") "system"
          ∷ child (child (child root "var") "lib") "mihomoctl"
          ∷ child (child root "run") "mihomoctl"
          ∷ []
        else child (child s.config_home "systemd") "user" ∷ [])

abbrev pub outside_roots : Exception
outside_roots = raised transaction_error "destination-outside-managed-roots"

abbrev pub is_canonical : FilePath → Bool
is_canonical p = p.absolute && not (contains p.parts "..")

-- The tests that follow the checks of the path's form and of its ancestors.
unfoldable pub check_place : Scope → Transaction → FilePath → Checked Unit
check_place s tx p =
    if contains tx.allow_paths p
    then ok tt
    else if is_symlink (lstat tx.files p)
    then raise (raised transaction_error "refuse-symlink-destination")
    else if any (relative_to p) (managed_roots s)
    then ok tt
    else raise outside_roots

unfoldable pub check_destination : Os → Scope → Transaction → FilePath → Checked Unit
unfolding check_place
check_destination os s tx p = do
  raise_if (not (is_canonical p)) outside_roots
  check_ancestors tx.files p "destination-unsafe" (0 ∷ os.uid ∷ [])
  check_place s tx p

-- A destination is accepted exactly when it is absolute without `..`, its ancestors are safe for
-- root and the acting user, and it is one of the paths allowed by name, or no symbolic link and
-- inside a managed root.
pub check_destination_ok :
    (os : Os) (s : Scope) (tx : Transaction) (p : FilePath)
    → (check_destination os s tx p ≡ ok tt) ↔ (
        (is_canonical p ≡ true)
        × AreSafe (0 ∷ os.uid ∷ []) tx.files (parents p)
        × ((contains tx.allow_paths p ≡ true)
            ⊎ ((is_symlink (lstat tx.files p) ≡ false)
                × (any (relative_to p) (managed_roots s) ≡ true))))
unfolding check_destination
check_destination_ok os s tx p =
    ground (arith, check_ancestors_ok tx.files p "destination-unsafe" (0 ∷ os.uid ∷ []))
