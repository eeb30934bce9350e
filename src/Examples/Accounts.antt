-- ===== src/Examples/Accounts.antt =====
-- A user name and a password, as mihomoctl/credentials.py writes and reads them.
use mihomo_userctl.Base.{
  ℕ, String, ◌≡◌, refl, Option, none, some, List, [], ◌∷◌, ok, raise, ◌>>=◌, true, false, arith,
}
use mihomo_userctl.Base.Dict
use mihomo_userctl.Files.{FilePath, path_eq, file, dir, Files, Os, lstat}
use mihomo_userctl.Yaml.{mapping}
use mihomo_userctl.Credentials.{Refused}
use mihomo_userctl.Credentials.Profile.{
  Credentials, Texts, of_document, parse_file, create, document_text, escaped,
}
use mihomo_userctl.Credentials.Accepted.{IsUsername, IsPassword, create-parse}
use mihomo_userctl.Credentials.Quoted.{IsRead, written_entries, unescape}

abbrev account : Credentials
account = record { username = "user"; password = "a\"b" }

abbrev texts : Texts
texts = record {
  encode = λ s. 1 ∷ [];
  decode = λ b. some (document_text account);
  has_anchor = λ s. ok false;
  load_all = λ s. ok (mapping (written_entries account) ∷ []);
  chosen = λ prefix. "abcdefghijklmnopqrst";
}

abbrev account_os : Os
account_os = record { uid = 1000; gid = 1000; resolves = λ fs p. false }

abbrev home : Files
home =
    (record { absolute = true; parts = [] }, dir (record { mode = 0o700; uid = 1000; gid = 1000 }))
    ∷ []

abbrev account_path : FilePath
account_path = record { absolute = true; parts = "default.yaml" ∷ [] }

abbrev no_refusal : Refused
no_refusal = record { at_temp = false; at_replace = false; at_sync = false; at_unlink = false }

abbrev account_file : Files
account_file =
    (record { absolute = true; parts = [] }, dir (record { mode = 0o700; uid = 1000; gid = 1000 }))
    ∷ (account_path, file (1 ∷ []) (record { mode = 0o600; uid = 1000; gid = 1000 }))
    ∷ []

account_text : document_text account ≡ "username: \"user\"\npassword: \"a\\\"b\"\n"
unfolding document_text mihomo_userctl.Base.nat_eq
account_text = refl

user_IsUsername : IsUsername "user"
unfolding mihomo_userctl.Text.some_char mihomo_userctl.Base.nat_eq
user_IsUsername = record {
  password = record { some_text = λ e. cc; short = omega arith; printable = refl };
  one_word = refl;
}

secret_IsPassword : IsPassword "a\"b"
unfolding mihomo_userctl.Text.some_char mihomo_userctl.Base.nat_eq
secret_IsPassword = record { some_text = λ e. cc; short = omega arith; printable = refl }

account_IsRead : IsRead texts (escaped account.username) (escaped account.password)
unfolding escaped unescape mihomo_userctl.Base.nat_eq
account_IsRead = λ u p named secret.
    let named' : ◌≡◌ {A = Option String} (some "user") (some u) = named in
    let secret' : ◌≡◌ {A = Option String} (some "a\"b") (some p) = secret in
    let name : "user" ≡ u = cc in let word : "a\"b" ≡ p = cc in (refl, rw (← name, ← word) refl)

create-parse_example :
    (parse_file account_os texts (lstat account_file account_path) >>= of_document) ≡ ok account
unfolding create mihomo_userctl.Trust.check_ancestors mihomo_userctl.Trust.make_dirs
    mihomo_userctl.Trust.missing_from Dict.get path_eq mihomo_userctl.Base.nat_eq
    mihomo_userctl.Base.string_eq Dict.put mihomo_userctl.Text.all_chars
create-parse_example =
    create-parse account_os texts no_refusal account_path (some "user") (some "a\"b") home
      account_file account refl user_IsUsername secret_IsPassword (omega arith) refl refl refl
      account_IsRead
