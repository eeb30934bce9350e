-- ===== src/Credentials/Quoted.antt =====
-- What the document of mihomoctl/credentials.py says, by the rules of YAML for a double-quoted scalar on
-- one line: a backslash before a backslash or a quote stands for the latter.
use Prim.Native.Char.{Char, code}
use Prim.Native.String.append
use package.text.Mathlib.TextEquality.{Char-path}
use Prim.Native.String.{◌++◌ as ◌<>◌}
use mihomo_userctl.Base.{
  ℕ, String, ◌≡◌, refl, sym, ap, ◌∙◌, Bool, true, false, not, Option, none, some, ok, [], ◌∷◌, ◌==◌,
  ◌||◌, nat_eq, inl, inr, Bool-cases, arith, if◌then◌else◌,
}
use mihomo_userctl.Text.{between, all_chars, some_char}
use mihomo_userctl.Credentials.Profile.{
  Credentials, replace, escaped, quote, yaml_str, document_text, Texts, strict_load,
}
use mihomo_userctl.Yaml.{text, mapping, Entries, end, entry}
use mihomo_userctl.Files.{Os}

-- A character that is printable in YAML and no line break.
abbrev pub is_plain : Char → Bool
is_plain c =
    between 32 126 c
    || between 160 8231 c
    || between 8234 55295 c
    || between 57344 65533 c
    || between 65536 1114111 c

abbrev before : Char → Option String → Option String
before c none = none
before c (some s) = some (String.◌∷◌ c s)

-- The text between the quotes; the flag is whether a backslash stands before.
unfoldable pub unescape : Bool → String → Option String
unescape true String.[] = none
unescape false String.[] = some ""
unescape true (String.◌∷◌ c s) =
    let rest = unescape false s in if code c == 92 || code c == 34 then before c rest else none
unescape false (String.◌∷◌ c s) =
    let taken = unescape true s in
    let rest = unescape false s in
    if code c == 92 then taken else if code c == 34 || not (is_plain c) then none else before c rest

two :
    (a b : Char) (s : String)
    → (String.◌∷◌ a (String.◌∷◌ b "") <> s) ≡ String.◌∷◌ a (String.◌∷◌ b s)
two a b s =
    append.cons a (String.◌∷◌ b "") s
    ∙ ap (String.◌∷◌ a) (append.cons b "" s ∙ ap (String.◌∷◌ b) (append.nil s))

some-before :
    (c : Char) (o : Option String) (s : String) → o ≡ some s → before c o ≡ some (String.◌∷◌ c s)
some-before c o s h = rw h refl

-- One character, and what follows it.
unescape-one :
    (c : Char) (s : String)
    → is_plain c ≡ true
    → unescape false (replace 34 "\\\"" (replace 92 "\\\\" s)) ≡ some s
    → unescape false (
        replace 34 "\\\"" (
          if code c == 92
          then "\\\\" <> replace 92 "\\\\" s
          else String.◌∷◌ c (replace 92 "\\\\" s)))
      ≡ some (String.◌∷◌ c s)
unfolding replace unescape nat_eq
unescape-one c s plain ih = elim (Bool-cases (code c == 92)) [
  | inl e ↦
      let slash : Char = "\\" in
      let same : c ≡ slash = Char-path c slash (ground (arith, e)) in
      rw (e, two slash slash (replace 92 "\\\\" s))
        (some-before slash _ s ih ∙ ap (λ k. some (String.◌∷◌ k s)) (sym same))
  | inr e ↦ elim (Bool-cases (code c == 34)) [
    | inl f ↦
        let mark : Char = "\"" in
        let slash : Char = "\\" in
        let same : c ≡ mark = Char-path c mark (ground (arith, f)) in
        rw (e, replace, f, two slash mark (replace 34 "\\\"" (replace 92 "\\\\" s)))
          (some-before mark _ s ih ∙ ap (λ k. some (String.◌∷◌ k s)) (sym same))
    | inr f ↦ rw (e, replace, f, unescape, e, f, plain) (some-before c _ s ih)
  ]
]

-- What is escaped is read as it was.
pub unescape-escaped :
    (s : String) → all_chars is_plain s ≡ true → unescape false (escaped s) ≡ some s
unfolding escaped replace unescape all_chars nat_eq
unescape-escaped String.[] h = refl
unescape-escaped (String.◌∷◌ c s) h =
    unescape-one c s (ground arith) (unescape-escaped s (ground arith))

some_char-append :
    (t : Char → Bool) (a b : String)
    → some_char t a ≡ false
    → some_char t b ≡ false
    → some_char t (a <> b) ≡ false
unfolding some_char
some_char-append t String.[] b h g = rw append.nil g
some_char-append t (String.◌∷◌ c a) b h g =
    let rest = some_char-append t a b (ground arith) g in rw append.cons (ground arith)

some_char-replace :
    (t : Char → Bool) (old : ℕ) (new s : String)
    → some_char t new ≡ false
    → some_char t s ≡ false
    → some_char t (replace old new s) ≡ false
unfolding some_char replace
some_char-replace t old new String.[] h g = refl
some_char-replace t old new (String.◌∷◌ c s) h g =
    let rest = some_char-replace t old new s h (ground arith) in
    elim (Bool-cases (code c == old)) [
      | inl e ↦ rw e (some_char-append t new (replace old new s) h rest)
      | inr e ↦ rw e (ground arith)
    ]

-- A plain text has no NUL.
plain-no_nul : (s : String) → all_chars is_plain s ≡ true → some_char (λ c. code c == 0) s ≡ false
unfolding all_chars some_char
plain-no_nul String.[] h = refl
plain-no_nul (String.◌∷◌ c s) h = ground (arith, plain-no_nul s (ground arith))

abbrev has_nul : String → Bool
has_nul s = some_char (λ c. code c == 0) s

quote-no_nul : (s : String) → all_chars is_plain s ≡ true → has_nul (quote (escaped s)) ≡ false
unfolding escaped some_char nat_eq
quote-no_nul s h =
    let t : Char → Bool = λ c. code c == 0 in
    let inner =
      some_char-replace t 34 "\\\"" (replace 92 "\\\\" s) refl
        (some_char-replace t 92 "\\\\" s refl (plain-no_nul s h)) in
    some_char-append t "\"" (escaped s <> "\"") refl
      (some_char-append t (escaped s) "\"" inner refl)

-- The document that holds two bodies between quotes.
abbrev pub quoted_document : String → String → String
quoted_document u p = "username: " <> quote u <> "\npassword: " <> quote p <> "\n"

pub document_text-no_nul :
    (c : Credentials)
    → all_chars is_plain c.username ≡ true
    → all_chars is_plain c.password ≡ true
    → some_char (λ c. code c == 0) (document_text c) ≡ false
unfolding document_text yaml_str some_char nat_eq
document_text-no_nul c u p =
    let t : Char → Bool = λ c. code c == 0 in
    let secret = quote (escaped c.password) in
    let rest = "\npassword: " <> secret <> "\n" in
    some_char-append t "username: " (quote (escaped c.username) <> rest) refl (
      some_char-append t (quote (escaped c.username)) rest (quote-no_nul c.username u) (
        some_char-append t "\npassword: " (secret <> "\n") refl
          (some_char-append t secret "\n" (quote-no_nul c.password p) refl)))

-- What `create` writes says the user name and the password.
abbrev pub written_entries : Credentials → Entries
written_entries c = entry "username" (text c.username) (entry "password" (text c.password) end)

-- PyYAML reads the document of two bodies, by the rules for double-quoted scalars, with no anchor.
abbrev pub IsRead : Texts → String → String → Type 0
IsRead texts u p =
    (username password : String)
    → unescape false u ≡ some username
    → unescape false p ≡ some password
    → (texts.has_anchor (quoted_document u p) ≡ ok false)
      × (texts.load_all (quoted_document u p)
          ≡ ok (
              mapping (written_entries (record { username = username; password = password })) ∷ []))

pub strict_load-document_text :
    (os : Os) (texts : Texts) (c : Credentials)
    → all_chars is_plain c.username ≡ true
    → all_chars is_plain c.password ≡ true
    → IsRead texts (escaped c.username) (escaped c.password)
    → strict_load os texts (document_text c) ≡ ok (mapping (written_entries c))
unfolding strict_load document_text yaml_str
strict_load-document_text os texts c u p read =
    let (free, loaded) =
      read c.username c.password (unescape-escaped c.username u) (unescape-escaped c.password p) in
    let no_nul : some_char (λ c. code c == 0)
          (quoted_document (escaped c.username) (escaped c.password))
        ≡ false =
      document_text-no_nul c u p in
    rw (no_nul, free, loaded) refl
