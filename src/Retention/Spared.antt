-- ===== src/Retention/Spared.antt =====
-- Which files survive `discard_core_history` of mihomoctl/retention.py, however it ends.
use mihomo_userctl.Base.{
  ◌≡◌, ◌≢◌, refl, sym, ap, ◌∙◌, ◌⊎◌, inl, inr, String, true, false, not, Option, none, some, List,
  [], ◌∷◌, ◌==◌, ◌&&◌, ok, raise, ◌>>=◌, Bool-cases, Any, arith,
}
use mihomo_userctl.Base.Dict
use mihomo_userctl.Base.Dict.{Dict}
use mihomo_userctl.Files.{
  FilePath, path_eq, Bytes, Meta, Node, file, symlink, dir, special, Files, Os, lstat, exists,
  is_symlink, parent, has_child,
}
use mihomo_userctl.Trust.{Checked, require_private_file}
use mihomo_userctl.Credentials.{when_ok}
use mihomo_userctl.Yaml.{Entries, get}
use mihomo_userctl.Retention.{
  Tools, Denied, text_of, option_is, manifest, is_installed_path, remove_empty, remove_core,
  discard_core, check_core, after_row, with_row, discard_rows, write_manifest, plan,
  discard_planned, discard_listed, discard_read, read_manifest, rows_of, discard_core_history,
}
use mihomo_userctl.Retention.There.{removed-IsThere, write_atomic-IsThere}

unequal : (p q : FilePath) → (p == q) ≡ false → p ≢ q
unequal p q e = ground arith

module _ (q : FilePath) (b : Bytes) (m : Meta) where
  abbrev IsThere : Files → Type 0
  IsThere fs = lstat fs q ≡ some (file b m)

  module _ (os : Os) (tools : Tools) (denied : Denied) where
    -- The path is one of an installed core, with a receipt that has the digest of the file.
    pub record IsReceipted (p : FilePath) (digest : Option String) : Type 0 where
      pub path : p ≡ q
      pub installed : is_installed_path os tools denied p ≡ true
      pub digest_matches : option_is digest (tools.sha256 b) ≡ true

    remove_empty-IsThere :
        (d : FilePath) (n : Option Node) (fs fs' : Files)
        → lstat fs d ≡ n
        → IsThere fs
        → IsThere fs'
        → IsThere (remove_empty os tools denied d n fs').1
    remove_empty-IsThere d none fs fs' e before h = h
    remove_empty-IsThere d (some (file _ _)) fs fs' e before h = h
    remove_empty-IsThere d (some (symlink _ _)) fs fs' e before h = h
    remove_empty-IsThere d (some (special _)) fs fs' e before h = h
    remove_empty-IsThere d (some (dir dm)) fs fs' e before h = elim (Bool-cases (has_child fs' d)) [
      | inl f ↦ rw f h
      | inr f ↦ elim (Bool-cases (denied.rmdir d)) [
        | inl g ↦ simp (f, g) h
        | inr g ↦ elim (removed-IsThere q b m d fs' h) [
          | inl there ↦ simp (f, g) there
          | inr same ↦
              let clash : some (dir dm) ≡ some (file b m) = sym e ∙ ap (lstat fs) same ∙ before in
              cc
        ]
      ]
    ]

    remove_core-IsThere :
        (p : FilePath) (digest : Option String) (n : Option Node) (fs : Files)
        → lstat fs p ≡ n
        → is_installed_path os tools denied p ≡ true
        → IsThere fs
        → IsThere (remove_core os tools denied p digest n fs).1 ⊎ IsReceipted p digest
    unfolding remove_core
    remove_core-IsThere p digest none fs e i h = inl h
    remove_core-IsThere p digest (some (symlink _ _)) fs e i h = inl h
    remove_core-IsThere p digest (some (dir _)) fs e i h = inl h
    remove_core-IsThere p digest (some (special _)) fs e i h = inl h
    remove_core-IsThere p digest (some (file c cm)) fs e i h =
        elim (Bool-cases (option_is digest (tools.sha256 c))) [
          | inr f ↦ inl (rw f h)
          | inl f ↦ elim (Bool-cases (denied.unlink p)) [
            | inl g ↦ inl (simp (f, g) h)
            | inr g ↦ elim (removed-IsThere q b m p fs h) [
              | inl there ↦ inl (
                  simp (f, g)
                    (remove_empty-IsThere (parent p) (lstat fs (parent p)) fs (Dict.remove fs p)
                      refl h there))
              | inr same ↦
                  let one : some (file c cm) ≡ some (file b m) = sym e ∙ ap (lstat fs) same ∙ h in
                  let content : c ≡ b = cc in
                  inr (record { path = same; installed = i; digest_matches = rw (← content) f })
            ]
          ]
        ]

    discard_core-IsThere :
        (p : FilePath) (digest : Option String) (fs : Files)
        → IsThere fs
        → IsThere (discard_core os tools denied p digest fs).1 ⊎ IsReceipted p digest
    unfolding discard_core
    discard_core-IsThere p digest fs h = elim (Bool-cases (is_installed_path os tools denied p)) [
      | inr e ↦ inl (rw e h)
      | inl e ↦ elim (Bool-cases (not (exists os fs p) && not (is_symlink (lstat fs p)))) [
        | inl f ↦ inl (simp (e, f) h)
        | inr f ↦ simp (e, f) (by_check (check_core os tools denied p fs) e)
      ]
    ]
      where
        by_check :
            (c : Checked Unit)
            → is_installed_path os tools denied p ≡ true
            → IsThere (when_ok (c, fs) (remove_core os tools denied p digest (lstat fs p))).1
              ⊎ IsReceipted p digest
        by_check (raise x) e = inl h
        by_check (ok u) e = remove_core-IsThere p digest (lstat fs p) fs refl e h

    -- A receipt of the file that is not the receipt of the core that stays.
    abbrev pub IsOld : FilePath → String × Entries → Type 0
    IsOld keep (binary, row) =
        (tools.path_of binary ≢ keep)
        × IsReceipted (tools.path_of binary) (text_of row "binary_sha256")

    discard_rows-IsThere :
        (keep : FilePath) (receipts : Dict String Entries) (fs : Files)
        → IsThere fs
        → IsThere (discard_rows os tools denied keep receipts fs).1 ⊎ Any (IsOld keep) receipts
    unfolding discard_rows
    discard_rows-IsThere keep [] fs h = inl h
    discard_rows-IsThere keep ((binary, row) ∷ receipts) fs h =
        elim (Bool-cases (tools.path_of binary == keep)) [
          | inl e ↦ elim (discard_rows-IsThere keep receipts fs h) [
            | inl there ↦
                inl (rw e (with_row-IsThere (discard_rows os tools denied keep receipts fs) there))
            | inr old ↦ inr (inr old)
          ]
          | inr e ↦
              elim (discard_core-IsThere (tools.path_of binary) (text_of row "binary_sha256") fs
                h) [
                  | inl there ↦
                      elim (after_row-IsThere
                        (discard_core os tools denied (tools.path_of binary)
                          (text_of row "binary_sha256") fs)
                        there (λ fs'. discard_rows-IsThere keep receipts fs')) [
                          | inl kept ↦ inl (rw e kept)
                          | inr old ↦ inr (inr old)
                        ]
                  | inr receipted ↦ inr (inl (unequal (tools.path_of binary) keep e, receipted))
                ]
        ]
      where
        with_row-IsThere :
            (r : Checked (List Entries) × Files)
            → IsThere r.1
            → IsThere (with_row os tools denied row r).1
        with_row-IsThere (ok kept, fs') there = there
        with_row-IsThere (raise x, fs') there = there

        after_row-IsThere :
            (r : Checked Unit × Files)
            → IsThere r.1
            → ((fs' : Files)
                → IsThere fs'
                → IsThere (discard_rows os tools denied keep receipts fs').1
                  ⊎ Any (IsOld keep) receipts)
            → IsThere (after_row os tools denied r (discard_rows os tools denied keep receipts)).1
              ⊎ Any (IsOld keep) receipts
        after_row-IsThere (ok _, fs') there rest = rest fs' there
        after_row-IsThere (raise x, fs') there rest = inl there

    -- The manifest lists the file as a core that was replaced, with its digest.
    pub record IsSuperseded (fs : Files) : Type 0 where
      pub document : Entries
      pub rows : List Entries
      pub keep : FilePath
      pub receipts : Dict String Entries
      pub read : read_manifest os tools denied (lstat fs (manifest os tools denied)) ≡ ok document
      pub listed : rows_of (get document "installs") ≡ ok rows
      pub planned : plan os tools denied rows fs ≡ ok (keep, receipts)
      pub old : Any (IsOld keep) receipts

    discard_planned-IsThere :
        (document : Entries) (rows : List Entries) (fs : Files)
        → manifest os tools denied ≢ q
        → IsThere fs
        → read_manifest os tools denied (lstat fs (manifest os tools denied)) ≡ ok document
        → rows_of (get document "installs") ≡ ok rows
        → IsThere (discard_planned os tools denied document (plan os tools denied rows fs) fs).1
          ⊎ IsSuperseded fs
    discard_planned-IsThere document rows fs ne h read listed =
        by_plan (plan os tools denied rows fs) refl
      where
        written :
            (r : Checked (List Entries) × Files)
            → IsThere r.1
            → IsThere (write_manifest os tools denied document r).1
        written (raise e, fs') there = there
        written (ok kept, fs') there =
            write_atomic-IsThere q b m os denied.writing (manifest os tools denied) _ 0o600 fs' ne
              there

        by_plan :
            (p : Checked (FilePath × Dict String Entries))
            → plan os tools denied rows fs ≡ p
            → IsThere (discard_planned os tools denied document p fs).1 ⊎ IsSuperseded fs
        by_plan (raise e) planned = inl h
        by_plan (ok (keep, receipts)) planned = elim (discard_rows-IsThere keep receipts fs h) [
          | inr old ↦ inr (record {
            document = document;
            rows = rows;
            keep = keep;
            receipts = receipts;
            read = read;
            listed = listed;
            planned = planned;
            old = old;
          })
          | inl there ↦ inl (written (discard_rows os tools denied keep receipts fs) there)
        ]

    discard_listed-IsThere :
        (document : Entries) (rows : Checked (List Entries)) (fs : Files)
        → manifest os tools denied ≢ q
        → IsThere fs
        → read_manifest os tools denied (lstat fs (manifest os tools denied)) ≡ ok document
        → rows_of (get document "installs") ≡ rows
        → IsThere (discard_listed os tools denied document rows fs).1 ⊎ IsSuperseded fs
    discard_listed-IsThere document (ok []) fs ne h read listed = inl h
    discard_listed-IsThere document (ok (row ∷ rows)) fs ne h read listed =
        discard_planned-IsThere document (row ∷ rows) fs ne h read listed
    discard_listed-IsThere document (raise e) fs ne h read listed = inl h

    -- However `discard_core_history` ends, and whatever the kernel refuses, a file other than the
    -- manifest keeps its content and metadata, unless the manifest lists it as an installed core with
    -- the digest of its content, and its path is not the one of the selected core (of the last core
    -- that was installed, where no core is selected yet).
    pub discard_core_history-spares :
        (fs : Files)
        → manifest os tools denied ≢ q
        → lstat fs q ≡ some (file b m)
        → (lstat (discard_core_history os tools denied fs).1 q ≡ some (file b m)) ⊎ IsSuperseded fs
    unfolding discard_core_history
    discard_core_history-spares fs ne h =
        elim (Bool-cases (exists os fs (manifest os tools denied))) [
          | inr e ↦ inl (rw e h)
          | inl e ↦
              rw e
                (by_trust (require_private_file os fs (manifest os tools denied) "config-invalid"))
        ]
      where
        by_read :
            (d : Checked Entries)
            → read_manifest os tools denied (lstat fs (manifest os tools denied)) ≡ d
            → IsThere (discard_read os tools denied d fs).1 ⊎ IsSuperseded fs
        by_read (raise x) read = inl h
        by_read (ok document) read =
            discard_listed-IsThere document (rows_of (get document "installs")) fs ne h read refl

        by_trust :
            (c : Checked Meta)
            → IsThere
                (discard_read os tools denied
                  (c >>= λ _. read_manifest os tools denied (lstat fs (manifest os tools denied)))
                  fs).1
              ⊎ IsSuperseded fs
        by_trust (raise x) = inl h
        by_trust (ok _) =
            by_read (read_manifest os tools denied (lstat fs (manifest os tools denied))) refl
