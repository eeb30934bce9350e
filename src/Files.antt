-- ===== src/Files.antt =====
-- The file system that the program works on: paths, what `lstat` tells of them, and the system
-- calls that change an entry. Symbolic links are entries of their own.
pub mod Laws
use mihomo_userctl.Base.{
  ℕ, String, Bool, true, false, not, Option, none, some, List, [], ◌∷◌, ◌++◌, ◌&&◌, ◌||◌, ◌==◌, Eq,
  any, if◌then◌else◌, string_discrete, bool_eq,
}
use mihomo_userctl.Base.Dict
use mihomo_userctl.Base.Dict.{Dict}

-- A `pathlib` path: `parts` has its components, the last one first, without the root.
pub record FilePath : Type 0 where
  pub absolute : Bool
  pub parts : List String

unfoldable pub FilePath-discrete : Discrete FilePath
unfolding string_discrete
FilePath-discrete = hlevel string_discrete

instance unfoldable pub path_eq : Eq FilePath
unfolding FilePath-discrete
path_eq = record { dec = FilePath-discrete }

instance unfoldable pub parts_eq : Eq (List String)
unfolding string_discrete
parts_eq = record { dec = hlevel string_discrete }

-- `path.parents`, the nearest one first; the root and the empty relative path have none.
abbrev above : Bool → List String → List FilePath
above a [] = []
above a (_ ∷ parts) = record { absolute = a; parts = parts } ∷ above a parts

abbrev pub parents : FilePath → List FilePath
parents p = above p.absolute p.parts

abbrev tail : List String → List String
tail [] = []
tail (_ ∷ parts) = parts

-- `path.parent`; the root is its own.
abbrev pub parent : FilePath → FilePath
parent p = record { absolute = p.absolute; parts = tail p.parts }

-- `path.name`
abbrev pub name_of : List String → String
name_of [] = ""
name_of (n ∷ parts) = n

-- `path / name`
abbrev pub child : FilePath → String → FilePath
child p name = record { absolute = p.absolute; parts = name ∷ p.parts }

-- Whether `path.relative_to(root)` succeeds: the path is the root of it or lies below.
abbrev pub relative_to : FilePath → FilePath → Bool
relative_to p root = p == root || any (λ q. q == root) (parents p)

abbrev pub Bytes : Type 0
Bytes = List ℕ

-- Permission bits (`S_IMODE`), owner and group.
pub record Meta : Type 0 where
  pub mode : ℕ
  pub uid : ℕ
  pub gid : ℕ

pub data Node : Type 0 where
  file : Bytes → Meta → Node
  symlink : String → Meta → Node
  dir : Meta → Node
  special : Meta → Node

abbrev pub Files : Type 0
Files = Dict FilePath Node

unfoldable pub lstat : Files → FilePath → Option Node
lstat = Dict.get

-- What the kernel decides: the acting user and group, and whether a symbolic link leads to an
-- existing file.
pub record Os : Type 0 where
  pub uid : ℕ
  pub gid : ℕ
  pub resolves : Files → FilePath → Bool

abbrev pub is_dir : Option Node → Bool
is_dir (some (dir _)) = true
is_dir _ = false

abbrev pub is_symlink : Option Node → Bool
is_symlink (some (symlink _ _)) = true
is_symlink _ = false

abbrev pub is_regular : Option Node → Bool
is_regular (some (file _ _)) = true
is_regular _ = false

-- `path.exists() or path.is_symlink()`
abbrev pub present : Option Node → Bool
present none = false
present (some _) = true

abbrev pub followed : Bool → Option Node → Bool
followed r none = false
followed r (some (symlink _ _)) = r
followed r (some _) = true

-- `path.exists()`, which follows a symbolic link
unfoldable pub exists : Os → Files → FilePath → Bool
exists os fs p = followed (os.resolves fs p) (lstat fs p)

-- The directory that a new entry goes to is there.
abbrev pub has_parent : Files → FilePath → Bool
has_parent fs p = is_dir (lstat fs (parent p))

abbrev pub private_dir : Os → Node
private_dir os = dir (record { mode = 0o700; uid = os.uid; gid = os.gid })

-- `path.mkdir(mode=0o700)`; `none` is an `OSError`
unfoldable pub mkdir : Os → Files → FilePath → Option Files
mkdir os fs p =
    if present (lstat fs p)
    then none
    else if has_parent fs p
    then some (Dict.put fs p (private_dir os))
    else none

-- Whether a directory has an entry.
abbrev pub has_child : Files → FilePath → Bool
has_child fs d = any (λ (p, _). parent p == d && not (p == d)) fs

-- `shutil.rmtree(path)`
unfoldable pub remove_tree : Files → FilePath → Files
remove_tree [] d = []
remove_tree ((p, n) ∷ fs) d =
    let rest = remove_tree fs d in if relative_to p d then rest else (p, n) ∷ rest
