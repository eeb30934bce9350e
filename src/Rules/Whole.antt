-- ===== src/Rules/Whole.antt =====
-- `safe_absolute`, `inspect_owned`, `parse_rule_file` and `file_status` of
-- mihomoctl/controller/rules.py. The time of the last change, which is only printed, is left out.
use mihomo_userctl.Base.{
  ℕ, String, Bool, true, not, Option, none, some, List, [], ◌∷◌, ◌==◌, ◌&&◌, ◌||◌, string_eq,
  nat_eq, ltb, length, contains, if◌then◌else◌, Result, ok, raise, ◌>>=◌, ◌>>◌, raise_if,
}
use mihomo_userctl.Text.{some_char, is_control, is_one_of, pieces, is_break}
use mihomo_userctl.Files.{
  FilePath, Bytes, Meta, Node, file, symlink, dir, special, Files, Os, lstat, exists, is_symlink,
  name_of,
}
use mihomo_userctl.Rules.{
  RuleError, unsupported_yaml, size_limit, must_be_utf8, unsafe_path, symlink_found, missing_file,
  wrong_type, not_owned, wrong_mode, count_rules,
}

abbrev pub max_file : ℕ
max_file = 4194304

-- The path itself and those above it, but for the root.
unfoldable pub no_symlink : Files → String → Bool → List String → Result RuleError (Unit {0})
unfolding lstat
no_symlink fs label a [] = ok tt
no_symlink fs label a (n ∷ parts) =
    let rest = no_symlink fs label a parts in
    if is_symlink (lstat fs (record { absolute = a; parts = n ∷ parts }))
    then raise (symlink_found label)
    else rest

-- `shown` is `str` of a path.
unfoldable pub safe_absolute :
    (FilePath → String) → Files → FilePath → String → Result RuleError FilePath
unfolding some_char no_symlink
safe_absolute shown fs p label =
    if not p.absolute || (contains p.parts ".." || some_char is_control (shown p))
    then raise (unsafe_path label)
    else (do no_symlink fs label p.absolute p.parts; ok p)

-- The type that a kind of entry has.
abbrev pub typed : String → Option Node → Result RuleError Meta
typed kind none = raise (missing_file kind)
typed kind (some (symlink _ _)) = raise (symlink_found kind)
typed kind (some (dir m)) = if kind == "rules-directory" then ok m else raise (wrong_type kind)
typed kind (some (file _ m)) = if kind == "rules-directory" then raise (wrong_type kind) else ok m
typed kind (some (special _)) = raise (wrong_type kind)

pub record Summary : Type 0 where
  pub rules : ℕ
  pub digest : String

pub data FileStatus : Type 0 where
  pass unverified failed : FileStatus

pub record Report : Type 0 where
  pub name : String
  pub exists : Bool
  pub summary : Option Summary
  pub status : FileStatus

-- `"unsupported" in error.code`
abbrev pub failure : RuleError → FileStatus
failure unsupported_yaml = unverified
failure _ = failed

abbrev pub content : Option Node → Bytes
content (some (file b _)) = b
content _ = []

module _ (os : Os) where
  unfoldable pub inspect_owned : Files → FilePath → ℕ → String → Result RuleError Meta
  unfolding lstat
  inspect_owned fs p mode kind = do
    m ← typed kind (lstat fs p)
    raise_if (not (m.uid == os.uid)) (not_owned kind)
    raise_if (not (m.mode == mode)) (wrong_mode kind)
    ok m

  module _ (decode : Bytes → Option String) (sha256 : Bytes → String) where
    -- The rules in the text of a file.
    abbrev pub count_text : Option String → Result RuleError ℕ
    count_text none = raise must_be_utf8
    count_text (some s) =
        if some_char (is_one_of (0 ∷ 9 ∷ [])) s
        then raise unsupported_yaml
        else count_rules (pieces is_break s)

    unfoldable pub parse_rule_file : Files → FilePath → Result RuleError Summary
    unfolding inspect_owned lstat some_char pieces count_rules
    parse_rule_file fs p = do
      _ ← inspect_owned fs p 0o600 "rule-file"
      raise_if (ltb max_file (length (content (lstat fs p)))) size_limit
      n ← count_text (decode (content (lstat fs p)))
      ok (record { rules = n; digest = sha256 (content (lstat fs p)) })

    abbrev pub reported : Files → FilePath → Result RuleError Summary → Report
    reported fs p (ok s) = record {
      name = name_of p.parts;
      exists = true;
      summary = some s;
      status = pass;
    }
    reported fs p (raise e) = record {
      name = name_of p.parts;
      exists = exists os fs p && not (is_symlink (lstat fs p));
      summary = none;
      status = failure e;
    }

    unfoldable pub file_status : Files → FilePath → Report
    unfolding parse_rule_file
    file_status fs p = reported fs p (parse_rule_file fs p)
