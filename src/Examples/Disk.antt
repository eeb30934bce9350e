-- ===== src/Examples/Disk.antt =====
-- A small disk, and a transaction on it that has just begun.
use mihomo_userctl.Base.{
  String, ◌≡◌, ◌≢◌, refl, Bool, true, false, none, some, List, [], ◌∷◌, ok, arith, string_eq,
  nat_eq,
}
use mihomo_userctl.Base.Dict
use mihomo_userctl.Transaction.Run.{Backend}
use mihomo_userctl.Files.{
  FilePath, path_eq, Meta, file, dir, Files, Os, lstat, child, is_dir, parent,
}
use mihomo_userctl.Files.Laws.{IsTree, put-IsTree}
use mihomo_userctl.Transaction.{Transaction, Outside, Scope}

abbrev pub root_meta : Meta
root_meta = record { mode = 0o755; uid = 0; gid = 0 }

abbrev pub user_meta : Meta
user_meta = record { mode = 0o600; uid = 1000; gid = 1000 }

abbrev pub user_dir : Meta
user_dir = record { mode = 0o700; uid = 1000; gid = 1000 }

abbrev pub user : Os
user = record { uid = 1000; gid = 1000; resolves = λ fs p. false }

abbrev pub top : FilePath
top = record { absolute = true; parts = [] }

abbrev pub home : FilePath
home = child top "home"

abbrev pub config : FilePath
config = child home "config.yaml"

abbrev pub state : FilePath
state = child (child home "state") "runtime.json"

abbrev pub bare : Files
bare = (top, dir root_meta) ∷ (record { absolute = false; parts = [] }, dir root_meta) ∷ []

abbrev pub with_home : Files
with_home = Dict.put bare home (dir user_dir)

abbrev pub disk : Files
disk = Dict.put with_home config (file (1 ∷ 2 ∷ []) user_meta)

pub bare-IsTree : IsTree bare
unfolding lstat Dict.get path_eq
bare-IsTree = record { rooted = rooted; closed = λ p. closed p.absolute p.parts }
  where
    rooted : (a : Bool) → is_dir (lstat bare (record { absolute = a; parts = [] })) ≡ true
    rooted true = refl
    rooted false = refl

    closed :
        (a : Bool) (parts : List String)
        → lstat bare (record { absolute = a; parts = parts }) ≢ none
        → is_dir (lstat bare (parent (record { absolute = a; parts = parts }))) ≡ true
    closed true [] h = refl
    closed false [] h = refl
    closed a (n ∷ parts) h = absurd (h (ground arith))

pub disk-IsTree : IsTree disk
unfolding lstat Dict.get Dict.put path_eq
disk-IsTree =
    put-IsTree with_home config (file (1 ∷ 2 ∷ []) user_meta)
      (put-IsTree bare home (dir user_dir) bare-IsTree refl (λ h. cc)) refl (λ h. cc)

abbrev pub outside : Outside
outside = record {
  sha256 = λ b. "digest";
  encode = λ s. [];
  flatten = λ p. "flat";
  read_text = λ b. some b;
  read_link = λ fs p. none;
}

abbrev pub scope : Scope
scope = record {
  system = false;
  config_root = home;
  data_root = home;
  state_root = home;
  cache_root = home;
  config_home = home;
}

abbrev pub begun : Transaction
begun = record {
  journal = [];
  finished = false;
  runtime = none;
  allow_paths = [];
  files = disk;
  staged = [];
  saved = [];
  stored = none;
}

abbrev pub quiet : Backend
quiet = record {
  running_before = ok false;
  running_after = ok false;
  stop = ok tt;
  reload = ok tt;
  start = ok true;
  status = ok true;
  health = ok true;
}
