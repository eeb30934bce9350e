-- ===== src/Retention/There.antt =====
-- A file that stays as it is, beside what mihomoctl/credentials.py and mihomoctl/trust.py do.
use mathlib.Core.Path.{subst}
use mathlib.Core.List.{reverse}
use mihomo_userctl.Base.{
  ℕ, ◌≡◌, ◌≢◌, sym, ap, ◌∙◌, ◌⊎◌, inl, inr, String, Bool, true, false, some, List, [], ◌∷◌, ◌==◌,
  ◌||◌, ok, raise, Bool-cases, Option-cases, arith,
}
use mihomo_userctl.Base.Dict
use mihomo_userctl.Base.Dict.{Dict}
use mihomo_userctl.Files
use mihomo_userctl.Files.{
  FilePath, path_eq, Bytes, Meta, Node, file, symlink, dir, special, Files, Os, lstat, exists,
  is_symlink, is_dir, parent, mkdir, has_parent, has_child, present,
}
use mihomo_userctl.Files.Laws.{lstat-put_ne, lstat-remove}
use mihomo_userctl.Trust.{
  Checked, make_dirs, missing, after_create, require_private_dir, check_ancestors,
}
use mihomo_userctl.Transaction.Directories.{mkdir_inv}
use mihomo_userctl.Credentials.{Refused, when_ok, write_atomic, replace_at}

module _ (q : FilePath) (b : Bytes) (m : Meta) where
  -- The path has the file.
  abbrev pub IsThere : Files → Type 0
  IsThere fs = lstat fs q ≡ some (file b m)

  pub removed-IsThere :
      (p : FilePath) (fs : Files) → IsThere fs → IsThere (Dict.remove fs p) ⊎ (p ≡ q)
  removed-IsThere p fs h = elim (Bool-cases (p == q)) [
    | inl e ↦ inr (ground arith)
    | inr e ↦ inl (lstat-remove fs p q ∙ rw e h)
  ]

  pub put-IsThere :
      (p : FilePath) (n : Node) (fs : Files) → p ≢ q → IsThere fs → IsThere (Dict.put fs p n)
  put-IsThere p n fs ne h = lstat-put_ne fs p q n ne ∙ h

  module _ (os : Os) where
    pub mkdir-IsThere :
        (fs fs' : Files) (p : FilePath) → mkdir os fs p ≡ some fs' → IsThere fs → IsThere fs'
    mkdir-IsThere fs fs' p e h =
        let (absent, _, made) = mkdir_inv os fs fs' p e in
        subst (λ x. IsThere x) (sym made)
          (put-IsThere p (Files.private_dir os) fs (λ same. cc (ap (lstat fs) same, absent, h)) h)

    pub make_dirs-IsThere :
        (ps : List FilePath) (fs : Files) → IsThere fs → IsThere (make_dirs os fs ps).1
    unfolding make_dirs
    make_dirs-IsThere [] fs h = h
    make_dirs-IsThere (p ∷ ps) fs h = elim (Option-cases (mkdir os fs p)) [
      | inl e ↦ rw (e, make_dirs) h
      | inr (fs', e) ↦ rw (e, make_dirs) (make_dirs-IsThere ps fs' (mkdir-IsThere fs fs' p e h))
    ]

    pub require_private_dir-IsThere :
        (p : FilePath) (code : String) (fs : Files)
        → IsThere fs
        → IsThere (require_private_dir os fs p true code).1
    unfolding require_private_dir
    require_private_dir-IsThere p code fs h =
        by_check (check_ancestors fs p code (0 ∷ os.uid ∷ []))
          (make_dirs os fs (reverse (missing os fs p)))
          (make_dirs-IsThere (reverse (missing os fs p)) fs h)
      where
        by_check :
            (c : Checked Unit) (made : Bool × Files)
            → IsThere made.1
            → IsThere
                (elim c as (λ _. Checked Meta × Files) [
                  | raise e ↦ (raise e, fs)
                  | ok _ ↦ after_create os made p code
                ]).1
        by_check (raise e) made there = h
        by_check (ok _) (true, fs') there = there
        by_check (ok _) (false, fs') there = there

    pub when_ok-IsThere :
        {A : Type 0} (r : Checked A × Files) (next : Files → Checked Unit × Files)
        → IsThere r.1
        → ((fs : Files) → IsThere fs → IsThere (next fs).1)
        → IsThere (when_ok r next).1
    when_ok-IsThere (ok a, fs) next h keeps = keeps fs h
    when_ok-IsThere (raise e, fs) next h keeps = h

    pub replace_at-IsThere :
        (f : Refused) (p : FilePath) (text : Bytes) (mode : ℕ) (fs : Files)
        → p ≢ q
        → IsThere fs
        → IsThere (replace_at os f p text mode fs).1
    replace_at-IsThere f p text mode fs ne h =
        let put =
          put-IsThere p (file text (record { mode = mode; uid = os.uid; gid = os.gid })) fs ne h in
        elim (Bool-cases (f.at_temp || f.at_replace || is_dir (lstat fs p))) [
          | inl e ↦ rw e h
          | inr e ↦ elim (Bool-cases f.at_sync) [
            | inl s ↦ simp (e, s) put
            | inr s ↦ simp (e, s) put
          ]
        ]

    pub write_atomic-IsThere :
        (f : Refused) (p : FilePath) (text : Bytes) (mode : ℕ) (fs : Files)
        → p ≢ q
        → IsThere fs
        → IsThere (write_atomic os f p text mode fs).1
    unfolding write_atomic
    write_atomic-IsThere f p text mode fs ne h =
        when_ok-IsThere (require_private_dir os fs (parent p) true "config-invalid")
          (replace_at os f p text mode)
          (require_private_dir-IsThere (parent p) "config-invalid" fs h)
          (λ fs'. replace_at-IsThere f p text mode fs' ne)
