-- ===== src/Rules/Passed.antt =====
-- Which paths and which rule files mihomoctl/controller/rules.py lets pass.
use mihomo_userctl.Base.{
  ℕ, String, ◌≡◌, ◌≤◌, refl, sym, ap, inl, inr, Bool, true, false, not, Option, none, some, List,
  [], ◌∷◌, ◌==◌, ◌||◌, string_eq, nat_eq, ltb, length, contains, Result, ok, raise, raise_if,
  raise_if_ok, bind_ok, ok_injective, Bool-cases, arith,
}
use mihomo_userctl.Text.{some_char, is_control, is_one_of, pieces, is_break}
use mihomo_userctl.Files.{
  FilePath, Bytes, Meta, Node, file, symlink, dir, special, Files, Os, lstat, is_symlink,
}
use mihomo_userctl.Rules.{RuleError, size_limit, not_owned, wrong_mode, max_rules}
use mihomo_userctl.Rules.Payload.{HasPayload, count_rules-HasPayload}
use mihomo_userctl.Rules.Whole.{
  max_file, no_symlink, safe_absolute, typed, inspect_owned, content, Summary, count_text,
  parse_rule_file, pass, failure, reported, file_status,
}

-- No symbolic link is at the path or above it, where the root is not looked at.
abbrev pub IsDirect : Files → Bool → List String → Type 0
IsDirect fs a [] = Unit
IsDirect fs a (n ∷ parts) =
    (is_symlink (lstat fs (record { absolute = a; parts = n ∷ parts })) ≡ false)
    × IsDirect fs a parts

no_symlink_ok :
    (fs : Files) (label : String) (a : Bool) (parts : List String) (u : Unit {0})
    → no_symlink fs label a parts ≡ ok u
    → IsDirect fs a parts
unfolding no_symlink
no_symlink_ok fs label a [] u h = tt
no_symlink_ok fs label a (n ∷ parts) u h =
    elim (Bool-cases (is_symlink (lstat fs (record { absolute = a; parts = n ∷ parts })))) [
      | inl e ↦ absurd (cc (rw e at h))
      | inr e ↦ (e, no_symlink_ok fs label a parts u (rw e at h))
    ]

-- `safe_absolute` gives back the path that it was given, which is absolute, has no component `..` and
-- no control character, and is not reached by a symbolic link.
pub safe_absolute_ok :
    (shown : FilePath → String) (fs : Files) (p q : FilePath) (label : String)
    → safe_absolute shown fs p label ≡ ok q
    → (q ≡ p)
      × (p.absolute ≡ true)
      × (contains p.parts ".." ≡ false)
      × (some_char is_control (shown p) ≡ false)
      × IsDirect fs p.absolute p.parts
unfolding safe_absolute
safe_absolute_ok shown fs p q label h =
    elim (Bool-cases
      (not p.absolute || (contains p.parts ".." || some_char is_control (shown p)))) [
        | inl e ↦ absurd (cc (rw e at h))
        | inr e ↦
            let (u, direct, h1) =
              bind_ok (no_symlink fs label p.absolute p.parts) (λ _. ok p) (rw e at h) in
            (
              sym (ok_injective h1),
              ground arith,
              ground arith,
              ground arith,
              no_symlink_ok fs label p.absolute p.parts u direct,
            )
      ]

module _ (os : Os) where
  -- A regular file of the acting user with the mode.
  pub record IsOwn (fs : Files) (p : FilePath) (mode : ℕ) : Type 0 where
    pub bytes : Bytes
    pub meta : Meta
    pub regular : lstat fs p ≡ some (file bytes meta)
    pub owner : meta.uid ≡ os.uid
    pub private : meta.mode ≡ mode

  typed_ok :
      (n : Option Node) (m : Meta)
      → typed "rule-file" n ≡ ok m
      → (b : Bytes) × (n ≡ some (file b m))
  unfolding string_eq
  typed_ok none m h = cc
  typed_ok (some (symlink _ _)) m h = cc
  typed_ok (some (dir _)) m h = cc
  typed_ok (some (file b n)) m h = (b, ap (λ x. some (file b x)) (ok_injective h))
  typed_ok (some (special _)) m h = cc

  is_not : (b : Bool) → not b ≡ false → b ≡ true
  is_not true h = refl
  is_not false h = cc

  same_numbers : (m n : ℕ) → (m == n) ≡ true → m ≡ n
  same_numbers m n h = ground arith

  inspect_owned_ok :
      (fs : Files) (p : FilePath) (mode : ℕ) (m : Meta)
      → inspect_owned os fs p mode "rule-file" ≡ ok m
      → IsOwn fs p mode
  unfolding inspect_owned
  inspect_owned_ok fs p mode m h =
      let (meta, e1, h1) = bind_ok (typed "rule-file" (lstat fs p)) _ h in
      let (_, e2, h2) =
        bind_ok (raise_if (not (meta.uid == os.uid)) (not_owned "rule-file")) _ h1 in
      let (_, e3, h3) =
        bind_ok (raise_if (not (meta.mode == mode)) (wrong_mode "rule-file")) _ h2 in
      let (bytes, regular) = typed_ok (lstat fs p) meta e1 in
      record {
        bytes = bytes;
        meta = meta;
        regular = regular;
        owner =
            same_numbers meta.uid os.uid
              (is_not (meta.uid == os.uid) (raise_if_ok _ (not_owned "rule-file") e2));
        private =
            same_numbers meta.mode mode
              (is_not (meta.mode == mode) (raise_if_ok _ (wrong_mode "rule-file") e3));
      }

  module _ (decode : Bytes → Option String) (sha256 : Bytes → String) where
    -- A text of rules, as they are counted.
    abbrev pub IsText : Option String → ℕ → Type 0
    IsText none n = ⊥
    IsText (some s) n =
        (some_char (is_one_of (0 ∷ 9 ∷ [])) s ≡ false)
        × HasPayload (pieces is_break s) n
        × (1 ≤ n)
        × (n ≤ max_rules)

    pub record IsPassed (fs : Files) (p : FilePath) (s : Summary) : Type 0 where
      pub own : IsOwn fs p 0o600
      pub small : length (content (lstat fs p)) ≤ max_file
      pub rules : IsText (decode (content (lstat fs p))) s.rules
      pub digest : s.digest ≡ sha256 (content (lstat fs p))

    count_text_ok : (o : Option String) (n : ℕ) → count_text os decode sha256 o ≡ ok n → IsText o n
    count_text_ok none n h = cc
    count_text_ok (some s) n h = elim (Bool-cases (some_char (is_one_of (0 ∷ 9 ∷ [])) s)) [
      | inl e ↦ absurd (cc (rw e at h))
      | inr e ↦
          let (payload, some_rule, all) =
            count_rules-HasPayload (pieces is_break s) n (rw e at h) in
          (e, payload, some_rule, all)
    ]

    small_enough : (n : ℕ) → ltb max_file n ≡ false → n ≤ max_file
    small_enough n h = ground arith

    parse_rule_file_ok :
        (fs : Files) (p : FilePath) (s : Summary)
        → parse_rule_file os decode sha256 fs p ≡ ok s
        → IsPassed fs p s
    unfolding parse_rule_file
    parse_rule_file_ok fs p s h =
        let (m, e1, h1) = bind_ok (inspect_owned os fs p 0o600 "rule-file") _ h in
        let (_, e2, h2) =
          bind_ok (raise_if (ltb max_file (length (content (lstat fs p)))) size_limit) _ h1 in
        let (n, e3, h3) =
          bind_ok (count_text os decode sha256 (decode (content (lstat fs p)))) _ h2 in
        rw (← ok_injective h3) (record {
          own = inspect_owned_ok fs p 0o600 m e1;
          small = small_enough (length (content (lstat fs p))) (raise_if_ok _ size_limit e2);
          rules = count_text_ok (decode (content (lstat fs p))) n e3;
          digest = refl;
        })

    by_result :
        (fs : Files) (p : FilePath) (r : Result RuleError Summary)
        → parse_rule_file os decode sha256 fs p ≡ r
        → (reported os decode sha256 fs p r).status ≡ pass
        → (s : Summary) × ((reported os decode sha256 fs p r).summary ≡ some s) × IsPassed fs p s
    by_result fs p (ok s) e h = (s, refl, parse_rule_file_ok fs p s e)
    by_result fs p (raise x) e h = absurd (not_pass x h)
      where
        not_pass : (x : RuleError) → failure x ≡ pass → ⊥
        not_pass RuleError.unsupported_yaml h = cc
        not_pass _ h = cc

    -- A rule file that is reported as passed is a regular file of the acting user with mode 0600 and at
    -- most four megabytes, whose text has no tab and no NUL and is one header with as many rules as are
    -- reported, at least one and at most 100000; the digest is of its bytes.
    pub file_status_passes :
        (fs : Files) (p : FilePath)
        → (file_status os decode sha256 fs p).status ≡ pass
        → (s : Summary) × ((file_status os decode sha256 fs p).summary ≡ some s) × IsPassed fs p s
    unfolding file_status
    file_status_passes fs p h = by_result fs p (parse_rule_file os decode sha256 fs p) refl h
