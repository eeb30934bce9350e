-- ===== src/Credentials/Accepted.antt =====
-- Which credentials mihomoctl/credentials.py accepts, and that it reads back what it has written.
use Prim.Native.String
use mathlib.Core.Path.{subst}
use mihomo_userctl.Base.{
  ℕ, ◌≡◌, ◌≢◌, ◌≤◌, refl, sym, ap, ◌∙◌, ◌↔◌, String, Bool, true, false, not, Option, none, some, [],
  ◌∷◌, ◌||◌, string_eq, is_some, ltb, or_false, ok, raise, ◌>>=◌, ◌>>◌, raise_if, bind_ok,
  raise_if_ok, ok_injective, arith,
}
use mihomo_userctl.Files.{FilePath, Files, Os, lstat}
use mihomo_userctl.Trust.{Checked, refused}
use mihomo_userctl.Credentials.Quoted.{is_plain, written_entries, IsRead, strict_load-document_text}
use mihomo_userctl.Text.{all_chars, some_char, is_control, is_one_of}
use mihomo_userctl.Yaml.{Yaml, text, mapping, Entries, get, has_only}
use mihomo_userctl.Credentials.{Refused, write_atomic}
use mihomo_userctl.Credentials.Written.{write_atomic_ok}
use mihomo_userctl.Credentials.Profile.{
  Credentials, Texts, check_username, check_password, as_text, of_document, is_text_of_size,
  document_text, escaped, parse_file, wanted, when_written, create, code_invalid,
}

-- A text that the core takes as a password: from 1 to 256 characters, none of them a control character.
pub record IsPassword (s : String) : Type 0 where
  pub some_text : s ≢ ""
  pub short : String.count s ≤ 256
  pub printable : some_char is_control s ≡ false

-- A user name has no colon and no white space either.
pub record IsUsername (s : String) : Type 0 where
  pub password : IsPassword s
  pub one_word : some_char (is_one_of (58 ∷ 32 ∷ 9 ∷ 13 ∷ 10 ∷ [])) s ≡ false

is_text_of_size_iff :
    (s : String) → (is_text_of_size s ≡ true) ↔ ((s ≢ "") × (String.count s ≤ 256))
is_text_of_size_iff s = (λ h. ground arith, λ (a, b). ground arith)

sized :
    (s : String) (b : Bool)
    → not b ≡ false
    → is_text_of_size s ≡ b
    → (s ≢ "") × (String.count s ≤ 256)
sized s true h e = (is_text_of_size_iff s).0 e
sized s false h e = cc

check_password_ok : (s t : String) → check_password s ≡ ok t → IsPassword s × (s ≡ t)
unfolding check_password
check_password_ok s t h =
    let rest : Checked String = raise_if (some_char is_control s) (refused code_invalid) >> ok s in
    let (_, first, h1) =
      bind_ok (raise_if (not (is_text_of_size s)) (refused code_invalid)) (λ _. rest) h in
    let (_, second, h2) =
      bind_ok (raise_if (some_char is_control s) (refused code_invalid)) (λ _. ok s) h1 in
    let (some_text, short) =
      sized s (is_text_of_size s) (raise_if_ok _ (refused code_invalid) first) refl in
    (
      record {
        some_text = some_text;
        short = short;
        printable = raise_if_ok _ (refused code_invalid) second;
      },
      ok_injective h2,
    )

check_password-IsPassword : (s : String) → IsPassword s → check_password s ≡ ok s
unfolding check_password
check_password-IsPassword s p =
    let size = (is_text_of_size_iff s).1 (p.some_text, p.short) in rw (size, p.printable) refl

check_username_ok : (s t : String) → check_username s ≡ ok t → IsUsername s × (s ≡ t)
unfolding check_username
check_username_ok s t h =
    let bad : Bool =
      some_char is_control s || some_char (is_one_of (58 ∷ 32 ∷ 9 ∷ 13 ∷ 10 ∷ [])) s in
    let rest : Checked String = raise_if bad (refused code_invalid) >> ok s in
    let (_, first, h1) =
      bind_ok (raise_if (not (is_text_of_size s)) (refused code_invalid)) (λ _. rest) h in
    let (_, second, h2) = bind_ok (raise_if bad (refused code_invalid)) (λ _. ok s) h1 in
    let (some_text, short) =
      sized s (is_text_of_size s) (raise_if_ok _ (refused code_invalid) first) refl in
    let (printable, one_word) = or_false _ _ (raise_if_ok bad (refused code_invalid) second) in
    (
      record {
        password = record { some_text = some_text; short = short; printable = printable };
        one_word = one_word;
      },
      ok_injective h2,
    )

check_username-IsUsername : (s : String) → IsUsername s → check_username s ≡ ok s
unfolding check_username
check_username-IsUsername s u =
    let size = (is_text_of_size_iff s).1 (u.password.some_text, u.password.short) in
    rw (size, u.password.printable, u.one_word) refl

-- What an accepted document says.
pub record Says (d : Entries) (c : Credentials) : Type 0 where
  pub only : has_only ("username" ∷ "password" ∷ []) d ≡ true
  pub username : get d "username" ≡ some (text c.username)
  pub password : get d "password" ≡ some (text c.password)
  pub name_is_valid : IsUsername c.username
  pub password_is_valid : IsPassword c.password

as_text_ok :
    (check : String → Checked String) (v : Option Yaml) (t : String)
    → as_text check v ≡ ok t
    → (s : String) × (v ≡ some (text s)) × (check s ≡ ok t)
as_text_ok check (some (text s)) t h = (s, refl, h)
as_text_ok check none t h = cc
as_text_ok check (some Yaml.null) t h = cc
as_text_ok check (some (Yaml.bool _)) t h = cc
as_text_ok check (some (Yaml.int _)) t h = cc
as_text_ok check (some (Yaml.negative _)) t h = cc
as_text_ok check (some (Yaml.other _)) t h = cc
as_text_ok check (some Yaml.float_one) t h = cc
as_text_ok check (some (Yaml.list _)) t h = cc
as_text_ok check (some (mapping _)) t h = cc

within : (n : ℕ) → n ≤ 4194304 → ltb 4194304 n ≡ false
within n h = ground arith

not-false : (b : Bool) → not b ≡ false → b ≡ true
not-false true h = refl
not-false false h = cc

of_document_ok : (d : Entries) (c : Credentials) → of_document (mapping d) ≡ ok c → Says d c
unfolding of_document
of_document_ok d c h =
    let named = get d "username" in
    let secret = get d "password" in
    let bad : Bool =
      not (has_only ("username" ∷ "password" ∷ []) d)
      || not (is_some named)
      || not (is_some secret) in
    let last : String → String → Checked Credentials =
      λ u p. ok (record { username = u; password = p }) in
    let then_password : String → Checked Credentials =
      λ u. as_text check_password secret >>= last u in
    let then_name : Checked Credentials = as_text check_username named >>= then_password in
    let (_, first, h1) = bind_ok (raise_if bad (refused code_invalid)) (λ _. then_name) h in
    let (u, second, h2) = bind_ok (as_text check_username named) then_password h1 in
    let (p, third, h3) = bind_ok (as_text check_password secret) (last u) h2 in
    let (only, _) = or_false _ _ (or_false _ _ (raise_if_ok bad (refused code_invalid) first)).0 in
    let (s, named_text, name_ok) = as_text_ok check_username named u second in
    let (t, secret_text, secret_ok) = as_text_ok check_password secret p third in
    let (name_valid, same_name) = check_username_ok s u name_ok in
    let (secret_valid, same_secret) = check_password_ok t p secret_ok in
    let whole = ok_injective h3 in
    subst (Says d) whole (record {
      only = not-false _ only;
      username = rw (← same_name) named_text;
      password = rw (← same_secret) secret_text;
      name_is_valid = rw (← same_name) name_valid;
      password_is_valid = rw (← same_secret) secret_valid;
    })

pub of_document_iff : (d : Entries) (c : Credentials) → (of_document (mapping d) ≡ ok c) ↔ Says d c
unfolding of_document
of_document_iff d c = (
  of_document_ok d c,
  λ s.
      let name = check_username-IsUsername c.username s.name_is_valid in
      let secret = check_password-IsPassword c.password s.password_is_valid in
      rw (s.only, s.username, s.password, name, secret) refl,
)

module _ (os : Os) (texts : Texts) (f : Refused) where
  -- Where `create` returns, the file it has written is read as the same user name and password, if both are
  -- valid and all their characters are printable in YAML and no line breaks, the text is no longer than
  -- 4 MiB, UTF-8 is decoded to what was encoded, and PyYAML reads this document of two double-quoted
  -- scalars by the rules of YAML for them.
  pub create-parse :
      (path : FilePath) (username password : Option String) (fs fs' : Files) (c : Credentials)
      → create os texts f path username password fs ≡ (ok c, fs')
      → IsUsername c.username
      → IsPassword c.password
      → String.count (document_text c) ≤ 4194304
      → texts.decode (texts.encode (document_text c)) ≡ some (document_text c)
      → all_chars is_plain c.username ≡ true
      → all_chars is_plain c.password ≡ true
      → IsRead texts (escaped c.username) (escaped c.password)
      → (parse_file os texts (lstat fs' path) >>= of_document) ≡ ok c
  unfolding create get has_only string_eq
  create-parse path username password fs fs' c h name secret small decoded plain_name plain_secret
        read =
      by_write
        (write_atomic os f path (texts.encode (document_text (wanted os texts username password)))
          0o600 fs)
        refl h
    where
      by_write :
          (r : Checked Unit × Files)
          → write_atomic os f path
              (texts.encode (document_text (wanted os texts username password)))
              0o600
              fs
            ≡ r
          → when_written os texts (wanted os texts username password) r ≡ (ok c, fs')
          → (parse_file os texts (lstat fs' path) >>= of_document) ≡ ok c
      by_write (raise e, fs'') e1 h' = absurd (cc (ap (λ p. p.0) h'))
      by_write (ok _, fs'') e1 h' =
          let same : wanted os texts username password ≡ c = ok_injective (ap (λ p. p.0) h') in
          let after : fs'' ≡ fs' = ap (λ p. p.1) h' in
          let written : write_atomic os f path (texts.encode (document_text c)) 0o600 fs
              ≡ (ok tt, fs') =
            ap (λ w. write_atomic os f path (texts.encode (document_text w)) 0o600 fs) (sym same)
            ∙ e1
            ∙ ap (λ x. (ok tt, x)) after in
          let there =
            write_atomic_ok os f path (texts.encode (document_text c)) 0o600 fs fs' written in
          let fits : ltb 4194304 (String.count (document_text c)) ≡ false = within _ small in
          let loaded = strict_load-document_text os texts c plain_name plain_secret read in
          let says : Says (written_entries c) c = record {
            only = refl;
            username = refl;
            password = refl;
            name_is_valid = name;
            password_is_valid = secret;
          } in
          let accepted = (of_document_iff (written_entries c) c).1 says in
          rw (there, decoded, fits, loaded) accepted
