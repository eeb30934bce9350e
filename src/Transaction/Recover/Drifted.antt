-- ===== src/Transaction/Recover/Drifted.antt =====
-- What `recover_transactions` of mihomoctl/transaction.py refuses to overwrite.
use mihomo_userctl.Base.{
  ◌≡◌, ◌≢◌, refl, ap, String, ◌==◌, true, false, Option, none, some, List, [], ◌∷◌, ok, raise,
  Bool-cases, Result-cases, bind_ok, ◌>>=◌, ◌>>◌, raise_if, if◌then◌else◌, not, All, contains, ◌++◌,
  ◌⊎◌, inl, inr, option_eq, string_eq, raise_if_ok, arith,
}
use mihomo_userctl.Base.Dict
use mihomo_userctl.Base.Dict.{Dict}
use mihomo_userctl.Errors.{Exception}
use mihomo_userctl.Files.{FilePath, path_eq, Bytes, Files, Os, lstat, file, Meta}
use mihomo_userctl.Trust.{Checked}
use mihomo_userctl.Transaction.{Transaction, Outside, Scope, Record, Backup, Backup_eq, pending}
use mihomo_userctl.Transaction.Rollback.{Refusals}
use mihomo_userctl.Transaction.Run.{Backend}
use mihomo_userctl.Transaction.Recover.{
  StoredEntry, as_list, StoredDocument, Directory, document, records_of, final, current_drifted,
  not_private, journal_invalid, check_runtime, read_document,
}
use mihomo_userctl.Transaction.Recover.Reopen.{
  backup_digest, backup_digests, is_drifted, check_drift, reopen, opened, staging_fits,
  check_entries,
}
use mihomo_userctl.Transaction.Recover.Visits.{recover_directory}

contains-append :
    (xs ys : List String) (a : String)
    → contains xs a ≡ false
    → contains ys a ≡ false
    → contains (xs ++ ys) a ≡ false
contains-append [] ys a h g = g
contains-append (x ∷ xs) ys a h g = ground (arith, contains-append xs ys a, h, g)

contains-as_list : (o : Option String) (a : String) → o ≢ some a → contains (as_list o) a ≡ false
contains-as_list none a h = refl
contains-as_list (some x) a h = ground (arith, h)

module _ (out : Outside) (saved : Dict Backup Bytes) (p : FilePath) (b : Bytes) where
  -- A record that has no backup of this path with this content.
  abbrev pub LacksBackup : Record → Type 0
  LacksBackup r =
      r.path ≡ p
      → (name : Backup) (c : Bytes) → r.backup ≡ some name
      → Dict.get saved name ≡ some c
      → out.sha256 c ≢ out.sha256 b

  contains-backup_digest :
      (os : Os) (s : Scope) (home : FilePath) (o : Option Backup)
      → ((name : Backup) (c : Bytes)
          → o ≡ some name
          → Dict.get saved name ≡ some c
          → out.sha256 c ≢ out.sha256 b)
      → contains (backup_digest os out s home saved o) (out.sha256 b) ≡ false
  contains-backup_digest os s home none h = refl
  contains-backup_digest os s home (some name) h = of (Dict.get saved name) (λ c. h name c refl)
    where
      of :
          (o : Option Bytes)
          → ((c : Bytes) → o ≡ some c → out.sha256 c ≢ out.sha256 b)
          → contains (elim o [ none ↦ [] | some c ↦ out.sha256 c ∷ [] ]) (out.sha256 b) ≡ false
      of none g = refl
      of (some c) g = let other = g c refl in ground (arith, other)

  contains-backup_digests :
      (os : Os) (s : Scope) (home : FilePath) (rs : List Record)
      → All LacksBackup rs
      → contains (backup_digests os out s home saved p rs) (out.sha256 b) ≡ false
  unfolding backup_digests
  contains-backup_digests os s home [] h = refl
  contains-backup_digests os s home (r ∷ rs) h =
      let others = backup_digests os out s home saved p rs in
      let none_here = contains-backup_digests os s home rs h.1 in
      elim (path_eq.dec r.path p) [
        | no n ↦ ground (arith, n, none_here)
        | yes e ↦
            let none_first = contains-backup_digest os s home r.backup (h.0 e) in
            let none_at_all =
              contains-append (backup_digest os out s home saved r.backup) others _ none_first
                none_here in
            ground (arith, e, none_at_all)
      ]

never :
    {A B : Type 0} {b : B} (first : Checked A) (rest : A → Checked B)
    → ((a : A) → rest a ≢ ok b)
    → (first >>= rest) ≢ ok b
never first rest none_ok h = let (a, _, g) = bind_ok first rest h in none_ok a g

module _ (os : Os) (out : Outside) (s : Scope) (home : FilePath) where
  -- An entry that drifted is found.
  check_drift-drifted :
      (tx : Transaction) (ds : Dict FilePath Record) (p : FilePath) (last : Record)
      → Dict.get ds p ≡ some last
      → is_drifted os out s home tx p last (lstat tx.files p) ≡ true
      → check_drift os out s home tx ds ≢ ok tt
  unfolding check_drift Dict.get
  check_drift-drifted tx [] p last found drifted h = cc
  check_drift-drifted tx ((q, l) ∷ ds) p last found drifted h =
      let test = is_drifted os out s home tx q l (lstat tx.files q) in
      let (_, kept, h1) =
        bind_ok (raise_if test current_drifted) (λ _. check_drift os out s home tx ds) h in
      let as_expected = raise_if_ok test current_drifted kept in
      elim (path_eq.dec q p) [
        | yes e ↦ by_entry l e found as_expected
        | no n ↦ check_drift-drifted tx ds p last (ground (arith, found, n)) drifted h1
      ]
    where
      by_entry :
          (l : Record)
          → q ≡ p
          → (if q == p then some l else Dict.get ds p) ≡ some last
          → is_drifted os out s home tx q l (lstat tx.files q) ≡ false
          → ⊥
      by_entry l e found as_expected =
          let same : some l ≡ some last = ground (arith, e, found) in cc

  module _ (backend : Backend) (f : Refusals) (d : Directory) (doc : StoredDocument)
      (entries : List StoredEntry) (p : FilePath) (last : Record) (fs : Files) where
    reopen_never :
        (t : Transaction)
        → doc.journal ≡ some entries
        → Dict.get (final [] (records_of entries)) p ≡ some last
        → is_drifted os out s home
            (opened os out s home doc d pending none entries fs)
            p
            last
            (lstat fs p)
          ≡ true
        → reopen os out s home d doc pending fs ≢ ok t
    unfolding reopen
    reopen_never t j found drifted = never (check_runtime doc.name doc.runtime) _ (λ runtime.
        let tx = opened os out s home doc d pending runtime entries fs in
        let last_calls : Checked Transaction =
          check_drift os out s home tx (final [] (records_of entries)) >> ok tx in
        never (raise_if (not (staging_fits os out s home doc d fs)) journal_invalid) _ (λ _. rw j (
          never (check_entries os out s home true tx entries) (λ _. last_calls)
            (λ _ h.
              let (_, e, _) =
                bind_ok (check_drift os out s home tx (final [] (records_of entries))) (λ _. ok tx)
                  h in
              check_drift-drifted tx _ p last found drifted e))))

    read_document_cases :
        d.journal ≡ document doc
        → ((e : Exception) × (read_document d ≡ raise e)) ⊎ (read_document d ≡ ok doc)
    unfolding read_document
    read_document_cases j = elim (Bool-cases d.is_private) [
      | inr e ↦ inl (not_private, rw e refl)
      | inl e ↦ elim (Bool-cases (doc.id == some d.name)) [
        | inl same ↦ inr (simp (e, j, same) refl)
        | inr other ↦ inl (journal_invalid, simp (e, j, other) refl)
      ]
    ]

    -- A directory has a journal with the state "pending", whose last record of a path does not have
    -- the digest of the file that is now there, and neither has any backup of that path: then
    -- whatever else the document says, and whatever the kernel refuses, the recovery of this directory
    -- raises an exception, no file is touched, and the directory is kept.
    pub recover-drifted :
        (b : Bytes) (m : Meta)
        → d.journal ≡ document doc
        → doc.state ≡ some "pending"
        → doc.journal ≡ some entries
        → Dict.get (final [] (records_of entries)) p ≡ some last
        → lstat fs p ≡ some (file b m)
        → last.published_sha256 ≢ some (out.sha256 b)
        → All (LacksBackup out d.saved p b) (records_of entries)
        → (e : Exception) × (recover_directory os out s home backend f d fs ≡ (raise e, fs, true))
    unfolding recover_directory string_eq
    recover-drifted b m j st entries_are found at unpublished unsaved =
        let unexpected =
          contains-append (as_list last.published_sha256) _ (out.sha256 b)
            (contains-as_list _ _ unpublished)
            (contains-backup_digests out d.saved p b os s home (records_of entries) unsaved) in
        let drifted = ap not unexpected in
        elim (read_document_cases j) [
          | inl (e, h) ↦ (e, rw h refl)
          | inr h ↦ elim (Result-cases (reopen os out s home d doc pending fs)) [
            | inl (t, is_ok) ↦ absurd (reopen_never t entries_are found (rw at drifted) is_ok)
            | inr (e, fails) ↦ (e, simp (h, st, fails) refl)
          ]
        ]
