-- ===== src/Retention.antt =====
-- mihomoctl/retention.py: `discard_core_history`, which removes the cores that were replaced and their
-- receipts.
pub mod There
pub mod Spared
pub mod Listed
use mihomo_userctl.Base.{
  ℕ, zero, suc, String, Bool, true, false, not, Option, none, some, List, [], ◌∷◌, ◌++◌, ◌==◌, ◌&&◌,
  ◌||◌, string_eq, nat_eq, if◌then◌else◌, ok, raise, ◌>>=◌, ◌>>◌, raise_if,
}
use mihomo_userctl.Base.Dict
use mihomo_userctl.Base.Dict.{Dict}
use mihomo_userctl.Errors.{Exception, os_error, key_error, value_error, other_error}
use mihomo_userctl.Files.{
  FilePath, path_eq, Bytes, Meta, Node, file, symlink, dir, special, Files, Os, lstat, exists,
  is_symlink, parent, child, name_of, has_child,
}
use mihomo_userctl.Trust.{
  Checked, check_ancestors, require_private_file, require_private_dir, require_trusted_dir,
  require_executable_file,
}
use mihomo_userctl.Credentials.{Refused, when_ok, write_atomic}
use mihomo_userctl.Yaml.{
  Yaml, text, list, mapping, Items, nil, item, Entries, end, entry, get, truthy,
}
use Prim.Native.Char.{Char, code}

-- What the function uses: the scope, and Python's `pathlib`, `json` and `hashlib`. `loads` gives the
-- document of a manifest; `dumps` is the text of one, with sorted keys and a line feed. `active` is
-- `load_manager(scope).core.binary`, `is_decimal` is `\d`
-- of `re`, and `can_execute` is `os.access` on a binary.
pub record Tools : Type 0 where
  pub system : Bool
  pub cores_root : FilePath
  pub manager_path : FilePath
  pub path_of : String → FilePath
  pub loads : Bytes → Option Yaml
  pub dumps : Entries → Bytes
  pub sha256 : Bytes → String
  pub active : Files → Checked (Option String)
  pub is_decimal : Char → Bool
  pub can_execute : Files → FilePath → Bool

-- Which removals the kernel refuses.
pub record Denied : Type 0 where
  pub unlink : FilePath → Bool
  pub rmdir : FilePath → Bool
  pub writing : Refused

-- The rest of the pattern `v\d+\.\d+\.\d+`: so many dots are to come, and whether the last character
-- was a digit.
unfoldable pub digits_and_dots : (Char → Bool) → ℕ → Bool → String → Bool
digits_and_dots is_decimal dots after_digit String.[] = dots == 0 && after_digit
digits_and_dots is_decimal dots after_digit (String.◌∷◌ c s) =
    let more = digits_and_dots is_decimal dots true s in
    let next : Bool = elim dots [ zero ↦ false | suc n ↦ digits_and_dots is_decimal n false s ] in
    if is_decimal c then more else code c == 46 && after_digit && next

unfoldable pub is_core_version : (Char → Bool) → String → Bool
unfolding digits_and_dots
is_core_version is_decimal String.[] = false
is_core_version is_decimal (String.◌∷◌ c s) = code c == 118 && digits_and_dots is_decimal 2 false s

-- The rows of `document.get('installs', [])`, if there are any.
abbrev items : Items → Checked (List Entries)
items nil = ok []
items (item (mapping d) xs) = do rest ← items xs; ok (d ∷ rest)
items (item _ xs) = raise other_error

unfoldable pub rows_of : Option Yaml → Checked (List Entries)
rows_of v =
    if not (truthy v) then ok [] else elim v [ some (list xs) ↦ items xs | _ ↦ raise other_error ]

-- `row.get(key)`, where it is a text
abbrev pub text_of : Entries → String → Option String
text_of row key = elim (get row key) [ some (text s) ↦ some s | _ ↦ none ]

abbrev pub or_raise : {A : Type 0} → Exception → Option A → Checked A
or_raise e none = raise e
or_raise e (some a) = ok a

-- `{row['binary']: row for row in rows}`, after the entries there are
unfoldable pub unique : Dict String Entries → List Entries → Checked (Dict String Entries)
unique d [] = ok d
unique d (row ∷ rows) = elim (text_of row "binary") [
  | none ↦ raise key_error
  | some binary ↦ unique (Dict.put d binary row) rows
]

-- `rows[-1]['binary']`
unfoldable pub last_binary : List Entries → Checked String
last_binary [] = raise other_error
last_binary (row ∷ []) = or_raise key_error (text_of row "binary")
last_binary (row ∷ next ∷ rows) = last_binary (next ∷ rows)

-- `dict(document, installs=kept)`
abbrev pub as_items : List Entries → Items
as_items [] = nil
as_items (row ∷ rows) = item (mapping row) (as_items rows)

unfoldable pub with_installs : Items → Entries → Entries
with_installs kept end = entry "installs" (list kept) end
with_installs kept (entry k v d) =
    let rest = with_installs kept d in
    if k == "installs" then entry k (list kept) d else entry k v rest

abbrev pub option_is : Option String → String → Bool
option_is none s = false
option_is (some t) s = t == s

module _ (os : Os) (tools : Tools) (denied : Denied) where
  abbrev pub manifest : FilePath
  manifest = child tools.cores_root "manifest.json"

  -- The path of the core that stays.
  unfoldable pub kept_path : List Entries → Files → Checked FilePath
  unfolding exists last_binary
  kept_path rows fs =
      if exists os fs tools.manager_path
      then (do
        active ← tools.active fs
        binary ← or_raise other_error active
        ok (tools.path_of binary))
      else (do binary ← last_binary rows; ok (tools.path_of binary))

  -- A path that only an installation makes: `cores/v1.2.3/mihomo`.
  abbrev pub is_installed_path : FilePath → Bool
  is_installed_path p =
      parent (parent p) == tools.cores_root
      && name_of p.parts == "mihomo"
      && is_core_version tools.is_decimal (name_of (parent p).parts)

  abbrev pub check_storage : FilePath → Files → Checked Unit
  check_storage p fs =
      if tools.system
      then (do
        check_ancestors fs p "core-storage-unsafe" (0 ∷ [])
        _ ← require_trusted_dir os fs (parent p)
        ok tt)
      else (do _ ← (require_private_dir os fs (parent p) false "config-invalid").0; ok tt)

  unfoldable pub check_core : FilePath → Files → Checked Unit
  unfolding check_ancestors require_trusted_dir require_private_dir require_executable_file
  check_core p fs = do
    check_storage p fs
    _ ← require_executable_file os (tools.can_execute fs p) fs p "core-binary-invalid" tools.system
    ok tt

  -- `path.parent.rmdir()`, if the directory is empty
  abbrev pub remove_empty : FilePath → Option Node → Files → Checked Unit × Files
  remove_empty d (some (dir m)) fs =
      if has_child fs d
      then (ok tt, fs)
      else if denied.rmdir d
      then (raise os_error, fs)
      else (ok tt, Dict.remove fs d)
  remove_empty d _ fs = (raise os_error, fs)

  -- The end of the loop's body: `check_core` has seen a regular file.
  unfoldable pub remove_core : FilePath → Option String → Option Node → Files → Checked Unit × Files
  remove_core p digest (some (file b m)) fs =
      if option_is digest (tools.sha256 b)
      then if denied.unlink p
        then (raise os_error, fs)
        else remove_empty (parent p) (lstat fs (parent p)) (Dict.remove fs p)
      else (ok tt, fs)
  remove_core p digest _ fs = (raise os_error, fs)

  -- What the loop does with the path of a row that does not stay.
  unfoldable pub discard_core : FilePath → Option String → Files → Checked Unit × Files
  unfolding is_core_version exists lstat check_core remove_core
  discard_core p digest fs =
      if not (is_installed_path p)
      then (ok tt, fs)
      else if not (exists os fs p) && not (is_symlink (lstat fs p))
      then (ok tt, fs)
      else when_ok (check_core p fs, fs) (remove_core p digest (lstat fs p))

  abbrev pub after_row :
      Checked Unit × Files
      → (Files → Checked (List Entries) × Files)
      → Checked (List Entries) × Files
  after_row (ok _, fs) next = next fs
  after_row (raise e, fs) next = (raise e, fs)

  abbrev pub with_row : Entries → Checked (List Entries) × Files → Checked (List Entries) × Files
  with_row row (ok kept, fs) = (ok (row ∷ kept), fs)
  with_row row (raise e, fs) = (raise e, fs)

  -- The loop over the rows, with the rows that it keeps.
  unfoldable pub discard_rows :
      FilePath → Dict String Entries → Files → Checked (List Entries) × Files
  unfolding discard_core
  discard_rows keep [] fs = (ok [], fs)
  discard_rows keep ((binary, row) ∷ rows) fs =
      let p = tools.path_of binary in
      if p == keep
      then with_row row (discard_rows keep rows fs)
      else after_row (discard_core p (text_of row "binary_sha256") fs) (discard_rows keep rows)

  abbrev pub write_manifest : Entries → Checked (List Entries) × Files → Checked Unit × Files
  write_manifest document (ok kept, fs) =
      write_atomic os denied.writing manifest (tools.dumps (with_installs (as_items kept) document))
        0o600 fs
  write_manifest document (raise e, fs) = (raise e, fs)

  -- The path that stays, with the receipts that are left for each path.
  abbrev pub plan : List Entries → Files → Checked (FilePath × Dict String Entries)
  plan rows fs = do keep ← kept_path rows fs; receipts ← unique [] rows; ok (keep, receipts)

  abbrev pub discard_planned :
      Entries → Checked (FilePath × Dict String Entries) → Files → Checked Unit × Files
  discard_planned document (ok (keep, receipts)) fs =
      write_manifest document (discard_rows keep receipts fs)
  discard_planned document (raise e) fs = (raise e, fs)

  abbrev pub discard_listed : Entries → Checked (List Entries) → Files → Checked Unit × Files
  discard_listed document (ok []) fs = (ok tt, fs)
  discard_listed document (ok (row ∷ rows)) fs = discard_planned document (plan (row ∷ rows) fs) fs
  discard_listed document (raise e) fs = (raise e, fs)

  -- `json.loads(manifest.read_text(…))`, and its rows
  abbrev pub read_manifest : Option Node → Checked Entries
  read_manifest (some (file b m)) = elim (tools.loads b) [
    | none ↦ raise value_error
    | some (mapping d) ↦ ok d
    | some _ ↦ raise other_error
  ]
  read_manifest _ = raise os_error

  abbrev pub discard_read : Checked Entries → Files → Checked Unit × Files
  discard_read (ok document) fs = discard_listed document (rows_of (get document "installs")) fs
  discard_read (raise e) fs = (raise e, fs)

  unfoldable pub discard_core_history : Files → Checked Unit × Files
  unfolding exists lstat require_private_file rows_of kept_path unique discard_rows write_atomic
      with_installs
  discard_core_history fs =
      if not (exists os fs manifest)
      then (ok tt, fs)
      else discard_read
          (do
            _ ← require_private_file os fs manifest "config-invalid"
            read_manifest (lstat fs manifest))
          fs
