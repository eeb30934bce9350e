-- ===== src/Retention/Listed.antt =====
-- What the manifest lists after `discard_core_history` of mihomoctl/retention.py.
use mihomo_userctl.Base.{
  ◌≡◌, refl, ap, inl, inr, String, true, List, [], ◌∷◌, ◌==◌, if◌then◌else◌, ok, raise, ◌>>=◌,
  Bool-cases,
}
use mihomo_userctl.Base.Dict.{Dict}
use mihomo_userctl.Files.{FilePath, path_eq, Meta, Files, Os, lstat, exists}
use mihomo_userctl.Trust.{Checked, require_private_file}
use mihomo_userctl.Credentials.Written.{IsWritten, write_atomic_ok}
use mihomo_userctl.Yaml.{Entries, get}
use mihomo_userctl.Retention.{
  Tools, Denied, text_of, manifest, discard_core, after_row, with_row, discard_rows, write_manifest,
  plan, discard_read, read_manifest, rows_of, discard_core_history, as_items, with_installs,
}

module _ (os : Os) (tools : Tools) (denied : Denied) where
  -- The receipts whose path is the one that stays.
  unfoldable pub kept_rows : FilePath → Dict String Entries → List Entries
  kept_rows keep [] = []
  kept_rows keep ((binary, row) ∷ receipts) =
      let rest = kept_rows keep receipts in
      if tools.path_of binary == keep then row ∷ rest else rest

  discard_rows_ok :
      (keep : FilePath) (receipts : Dict String Entries) (fs : Files) (kept : List Entries)
      → (discard_rows os tools denied keep receipts fs).0 ≡ ok kept
      → kept ≡ kept_rows keep receipts
  unfolding discard_rows kept_rows
  discard_rows_ok keep [] fs kept h = cc
  discard_rows_ok keep ((binary, row) ∷ receipts) fs kept h =
      elim (Bool-cases (tools.path_of binary == keep)) [
        | inl e ↦ rw e (
            with_row_ok (discard_rows os tools denied keep receipts fs)
              (λ k. discard_rows_ok keep receipts fs k) (rw e at h))
        | inr e ↦ rw e (
            after_row_ok
              (discard_core os tools denied (tools.path_of binary) (text_of row "binary_sha256") fs)
              (λ fs'. discard_rows_ok keep receipts fs' kept) (rw e at h))
      ]
    where
      with_row_ok :
          (r : Checked (List Entries) × Files)
          → ((k : List Entries) → r.0 ≡ ok k → k ≡ kept_rows keep receipts)
          → (with_row os tools denied row r).0 ≡ ok kept
          → kept ≡ row ∷ kept_rows keep receipts
      with_row_ok (ok k, fs') rest h' = let same = rest k refl in cc
      with_row_ok (raise x, fs') rest h' = cc

      after_row_ok :
          (r : Checked Unit × Files)
          → ((fs' : Files)
              → (discard_rows os tools denied keep receipts fs').0 ≡ ok kept
              → kept ≡ kept_rows keep receipts)
          → (after_row os tools denied r (discard_rows os tools denied keep receipts)).0 ≡ ok kept
          → kept ≡ kept_rows keep receipts
      after_row_ok (ok _, fs') rest h' = rest fs' h'
      after_row_ok (raise x, fs') rest h' = cc

  abbrev IsListed : Files → Entries → List Entries → Type 0
  IsListed fs document rows =
      IsWritten os denied.writing fs (manifest os tools denied)
        (tools.dumps (with_installs (as_items rows) document)) 0o600

  write_manifest_ok :
      (document : Entries) (keep : FilePath) (receipts : Dict String Entries)
      (r : Checked (List Entries) × Files) (fs' : Files)
      → ((k : List Entries) → r.0 ≡ ok k → k ≡ kept_rows keep receipts)
      → write_manifest os tools denied document r ≡ (ok tt, fs')
      → IsListed fs' document (kept_rows keep receipts)
  write_manifest_ok document keep receipts (raise x, fs) fs' rows h = absurd (cc (ap (λ p. p.0) h))
  write_manifest_ok document keep receipts (ok kept, fs) fs' rows h = rw (← rows kept refl) (
      write_atomic_ok os denied.writing (manifest os tools denied)
        (tools.dumps (with_installs (as_items kept) document)) 0o600 fs fs' h)

  -- Where `discard_core_history` returns and the manifest listed installed cores, the manifest is a file of
  -- the acting user with mode 0600, and its text is that of the same document with no other installs
  -- than the last receipt for each spelling of the path that stays.
  pub discard_core_history-lists :
      (fs fs' : Files) (document row : Entries) (rows : List Entries) (keep : FilePath)
      (receipts : Dict String Entries)
      → exists os fs (manifest os tools denied) ≡ true
      → read_manifest os tools denied (lstat fs (manifest os tools denied)) ≡ ok document
      → rows_of (get document "installs") ≡ ok (row ∷ rows)
      → plan os tools denied (row ∷ rows) fs ≡ ok (keep, receipts)
      → discard_core_history os tools denied fs ≡ (ok tt, fs')
      → IsListed fs' document (kept_rows keep receipts)
  unfolding discard_core_history
  discard_core_history-lists fs fs' document row rows keep receipts there read listed planned h =
      by_trust (require_private_file os fs (manifest os tools denied) "config-invalid")
        (rw there at h)
    where
      by_trust :
          (c : Checked Meta)
          → discard_read os tools denied
              (c >>= λ _. read_manifest os tools denied (lstat fs (manifest os tools denied)))
              fs
            ≡ (ok tt, fs')
          → IsListed fs' document (kept_rows keep receipts)
      by_trust (raise x) h' = absurd (cc (ap (λ p. p.0) h'))
      by_trust (ok m) h' =
          write_manifest_ok document keep receipts (discard_rows os tools denied keep receipts fs)
            fs' (λ k. discard_rows_ok keep receipts fs k) (rw (read, listed, planned) at h')
