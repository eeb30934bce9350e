-- ===== src/Credentials/Profile.antt =====
-- The user name and password of a profile, mihomoctl/credentials.py: how they are written, and which
-- are accepted when they are read.
use Prim.Native.Char.{code}
use Prim.Native.String
use Prim.Native.String.{◌++◌ as ◌<>◌}
use mihomo_userctl.Base.{
  ℕ, String, Bool, not, Option, none, some, List, [], ◌∷◌, ◌==◌, ◌&&◌, ◌||◌, string_eq, nat_eq,
  is_some, ltb, if◌then◌else◌, ok, raise, ◌>>=◌, ◌>>◌, raise_if,
}
use mihomo_userctl.Files.{FilePath, Bytes, Node, file, Files, Os, lstat}
use mihomo_userctl.Trust.{Checked, refused, require_private_file}
use mihomo_userctl.Text.{some_char, is_control, is_one_of}
use mihomo_userctl.Yaml.{Yaml, text, mapping, get, has_only}
use mihomo_userctl.Credentials.{Refused, write_atomic}

pub record Credentials : Type 0 where
  pub username : String
  pub password : String

-- What Python and PyYAML do with texts: UTF-8, whether `yaml.scan` finds an anchor or an alias,
-- `yaml.load_all` with the loader of mihomoctl/yamlutil.py, and the characters that `secrets` chose for a
-- generated name or password. An error of PyYAML is raised as the code does.
pub record Texts : Type 0 where
  pub encode : String → Bytes
  pub decode : Bytes → Option String
  pub has_anchor : String → Checked Bool
  pub load_all : String → Checked (List Yaml)
  pub chosen : String → String

abbrev pub code_invalid : String
code_invalid = "credentials-invalid"

abbrev pub is_text_of_size : String → Bool
is_text_of_size s = not (s == "") && not (ltb 256 (String.count s))

-- `_username` of a text
unfoldable pub check_username : String → Checked String
unfolding some_char
check_username s = do
  raise_if (not (is_text_of_size s)) (refused code_invalid)
  raise_if (some_char is_control s || some_char (is_one_of (58 ∷ 32 ∷ 9 ∷ 13 ∷ 10 ∷ [])) s)
      (refused code_invalid)
  ok s

-- `_password` of a text
unfoldable pub check_password : String → Checked String
unfolding some_char
check_password s = do
  raise_if (not (is_text_of_size s)) (refused code_invalid)
  raise_if (some_char is_control s) (refused code_invalid)
  ok s

abbrev pub as_text : (String → Checked String) → Option Yaml → Checked String
as_text check (some (text s)) = check s
as_text check _ = raise (refused code_invalid)

-- The checks of `load` on the document.
unfoldable pub of_document : Yaml → Checked Credentials
unfolding get has_only check_username check_password
of_document (mapping d) = do
  raise_if
      (not (has_only ("username" ∷ "password" ∷ []) d)
        || not (is_some (get d "username"))
        || not (is_some (get d "password")))
      (refused code_invalid)
  username ← as_text check_username (get d "username")
  password ← as_text check_password (get d "password")
  ok (record { username = username; password = password })
of_document _ = raise (refused code_invalid)

-- `value.replace(old, new)` for one character
unfoldable pub replace : ℕ → String → String → String
replace old new String.[] = ""
replace old new (String.◌∷◌ c s) =
    let rest = replace old new s in if code c == old then new <> rest else String.◌∷◌ c rest

unfoldable pub escaped : String → String
unfolding replace
escaped s = replace 34 "\\\"" (replace 92 "\\\\" s)

abbrev pub quote : String → String
quote s = "\"" <> s <> "\""

-- `_yaml_str`
unfoldable pub yaml_str : String → String
unfolding escaped
yaml_str s = quote (escaped s)

unfoldable pub document_text : Credentials → String
unfolding yaml_str
document_text c =
    "username: " <> yaml_str c.username <> "\npassword: " <> yaml_str c.password <> "\n"

module _ (os : Os) (texts : Texts) where
  -- `generate(prefix)`
  abbrev pub generate : String → String
  generate prefix = prefix <> "-" <> texts.chosen prefix

  abbrev pub or_generated : Option String → String → String
  or_generated none prefix = generate prefix
  or_generated (some s) prefix = if s == "" then generate prefix else s

  abbrev pub only_one : List Yaml → Checked Yaml
  only_one (d ∷ []) = ok d
  only_one _ = raise (refused "config-invalid")

  -- `strict_load`
  unfoldable pub strict_load : String → Checked Yaml
  unfolding some_char
  strict_load s = do
    raise_if (some_char (λ c. code c == 0) s) (refused "config-invalid")
    anchored ← texts.has_anchor s
    raise_if anchored (refused "config-invalid")
    documents ← texts.load_all s
    only_one documents

  -- What `read_private_yaml` makes of a file that passed the trust check.
  abbrev pub parse_text : Option String → Checked Yaml
  parse_text none = raise (refused code_invalid)
  parse_text (some s) =
      if ltb (4194304) (String.count s) then raise (refused code_invalid) else strict_load s

  abbrev pub parse_file : Option Node → Checked Yaml
  parse_file (some (file b _)) = parse_text (texts.decode b)
  parse_file _ = raise (refused code_invalid)

  abbrev pub read_private_yaml : FilePath → Files → Checked Yaml
  read_private_yaml path fs = do
    _ ← require_private_file os fs path code_invalid
    parse_file (lstat fs path)

  unfoldable pub load : FilePath → Files → Checked Credentials
  unfolding require_private_file lstat of_document
  load path fs = do document ← read_private_yaml path fs; of_document document

  abbrev pub wanted : Option String → Option String → Credentials
  wanted username password = record {
    username = or_generated username "user";
    password = or_generated password "mihomo";
  }

  abbrev pub when_written : Credentials → Checked Unit × Files → Checked Credentials × Files
  when_written c (ok _, fs) = (ok c, fs)
  when_written c (raise e, fs) = (raise e, fs)

  unfoldable pub create :
      Refused → FilePath → Option String → Option String → Files → Checked Credentials × Files
  unfolding write_atomic document_text
  create f path username password fs =
      let c = wanted username password in
      when_written c (write_atomic os f path (texts.encode (document_text c)) 0o600 fs)
