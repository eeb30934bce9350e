-- ===== src/Trust/Private.antt =====
-- What `require_private_file` and `require_private_dir` guarantee.
use Prim.Native.Nat.{bit_and}
use mihomo_userctl.Base.{
  String, ◌≡◌, ◌↔◌, ◌⊎◌, refl, inl, inr, Bool, true, false, Option, none, some, List, [], ◌∷◌,
  arith, ok, nat_eq, Option-cases,
}
use mathlib.Core.List.{reverse}
use mihomo_userctl.Base.Dict.{get-put}
use mihomo_userctl.Files
use mihomo_userctl.Files.{
  FilePath, Meta, Node, file, symlink, dir, special, Files, Bytes, Os, lstat, parents, mkdir,
  path_eq,
}
use mihomo_userctl.Trust.{
  private_file, require_private_file, private_dir, make_dirs, require_private_dir, missing, created,
  after_create,
}
use mihomo_userctl.Trust.Ancestors.{AreSafe, check_ancestors_ok}

-- The entry is a regular file with this metadata.
abbrev pub IsFile : Meta → Option Node → Type 0
IsFile m (some (file _ k)) = k ≡ m
IsFile m _ = ⊥

abbrev pub IsDir : Meta → Option Node → Type 0
IsDir m (some (dir k)) = k ≡ m
IsDir m _ = ⊥

private_file_ok :
    (os : Os) (code : String) (n : Option Node) (m : Meta)
    → (private_file os code n ≡ ok m) ↔ (IsFile m n × (m.uid ≡ os.uid) × (m.mode ≡ 0o600))
unfolding private_file
private_file_ok os code none m = ground arith
private_file_ok os code (some (file b k)) m = ground arith
private_file_ok os code (some _) m = ground arith

private_dir_ok :
    (os : Os) (code : String) (n : Option Node) (m : Meta)
    → (private_dir os code n ≡ ok m) ↔ (IsDir m n × (m.uid ≡ os.uid) × (bit_and m.mode 0o077 ≡ 0))
unfolding private_dir
private_dir_ok os code none m = ground arith
private_dir_ok os code (some (dir k)) m = ground arith
private_dir_ok os code (some _) m = ground arith

module _ (os : Os) (fs : Files) (path : FilePath) (code : String) (m : Meta) where
  -- A file passes as private exactly when its ancestors are safe for root and the acting user, and
  -- it is a regular file of the acting user with mode 600, whose metadata is the result.
  pub require_private_file_ok : (require_private_file os fs path code ≡ ok m) ↔ (
      AreSafe (0 ∷ os.uid ∷ []) fs (parents path)
      × IsFile m (lstat fs path)
      × (m.uid ≡ os.uid)
      × (m.mode ≡ 0o600))
  unfolding require_private_file
  require_private_file_ok = ground (
    arith,
    check_ancestors_ok fs path code (0 ∷ os.uid ∷ []),
    private_file_ok os code (lstat fs path) m,
  )

-- Nothing that was there is changed, and all that is new is an empty private directory.
abbrev pub OnlyNewDirs : Os → Files → Files → Type 0
OnlyNewDirs os fs fs' =
    (p : FilePath)
    → (lstat fs' p ≡ lstat fs p)
      ⊎ ((lstat fs p ≡ none) × (lstat fs' p ≡ some (Files.private_dir os)))

mkdir-OnlyNewDirs :
    (os : Os) (fs fs' : Files) (d : FilePath) → mkdir os fs d ≡ some fs' → OnlyNewDirs os fs fs'
unfolding mkdir lstat
mkdir-OnlyNewDirs os fs fs' d h p = ground (arith, get-put fs d p (Files.private_dir os))

pub make_dirs-OnlyNewDirs :
    (os : Os) (fs : Files) (ps : List FilePath) → OnlyNewDirs os fs (make_dirs os fs ps).1
unfolding make_dirs
make_dirs-OnlyNewDirs os fs [] p = inl refl
make_dirs-OnlyNewDirs os fs (d ∷ ps) p = elim (Option-cases (mkdir os fs d)) [
  | inl e ↦ rw (e, make_dirs) (inl refl)
  | inr (fs', e) ↦
      rw (e, make_dirs)
        (ground (arith, mkdir-OnlyNewDirs os fs fs' d e p, make_dirs-OnlyNewDirs os fs' ps p))
]

module _ (os : Os) (fs : Files) (path : FilePath) (code : String) where
  created-OnlyNewDirs : (create : Bool) → OnlyNewDirs os fs (created os create fs path).1
  created-OnlyNewDirs false p = inl refl
  created-OnlyNewDirs true p = make_dirs-OnlyNewDirs os fs (reverse (missing os fs path)) p

  after_create-files : (r : Bool × Files) → (after_create os r path code).1 ≡ r.1
  after_create-files (true, fs') = refl
  after_create-files (false, fs') = refl

  after_create_ok :
      (r : Bool × Files) (m : Meta)
      → (after_create os r path code).0 ≡ ok m
      → IsDir m (lstat r.1 path) × (m.uid ≡ os.uid) × (bit_and m.mode 0o077 ≡ 0)
  after_create_ok (true, fs') m h = (private_dir_ok os code (lstat fs' path) m).0 h
  after_create_ok (false, fs') m h = cc

  -- Whether it returns or raises, `require_private_dir` changes no entry that was there, and all
  -- that is new is a directory of mode 700 of the acting user.
  pub require_private_dir-OnlyNewDirs :
      (create : Bool) → OnlyNewDirs os fs (require_private_dir os fs path create code).1
  unfolding require_private_dir
  require_private_dir-OnlyNewDirs create p =
      ground (arith, created-OnlyNewDirs create p, after_create-files (created os create fs path))

  -- If `require_private_dir` returns `m`, the ancestors were safe for root and the acting user,
  -- and the path is now a directory with metadata `m`, of the acting user and closed to everybody
  -- else.
  pub require_private_dir_ok :
      (create : Bool) (m : Meta)
      → (require_private_dir os fs path create code).0 ≡ ok m
      → AreSafe (0 ∷ os.uid ∷ []) fs (parents path)
        × IsDir m (lstat (require_private_dir os fs path create code).1 path)
        × (m.uid ≡ os.uid)
        × (bit_and m.mode 0o077 ≡ 0)
  unfolding require_private_dir
  require_private_dir_ok create m h = ground (
    arith,
    check_ancestors_ok fs path code (0 ∷ os.uid ∷ []),
    after_create-files (created os create fs path),
    after_create_ok (created os create fs path) m,
  )
