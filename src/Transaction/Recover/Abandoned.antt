-- ===== src/Transaction/Recover/Abandoned.antt =====
-- A process ends in an operation of mihomoctl/transaction.py, with no handler run, and the next one
-- recovers what it left.
use mihomo_userctl.Base.{
  ◌≡◌, ◌⊎◌, refl, ap, ◌∙◌, String, true, false, Option, none, some, List, [], ◌∷◌, ok, raise, All,
  inl, inr, Bool-cases, Result-cases, is_some, string_eq, option_eq, ◌==◌, arith,
}
use mihomo_userctl.Errors.{Exception}
use mihomo_userctl.Files.{FilePath, Files, Os}
use mihomo_userctl.Files.Laws.{Same}
use mihomo_userctl.Transaction.{Transaction, Outside, Scope, Record, Document, pending}
use mihomo_userctl.Transaction.Run.{Backend, Step, run_steps}
use mihomo_userctl.Transaction.Rollback.{rollback}
use mihomo_userctl.Transaction.Kept.{run_steps-Keeps}
use mihomo_userctl.Transaction.Atomicity.{
  LeadsBack, IsFresh, IsReversible, granted, rolled_back, fresh-LeadsBack, run_steps-LeadsBack,
}
use mihomo_userctl.Transaction.Outcome.{restored_plainly}
use mihomo_userctl.Transaction.Recover.{
  StoredEntry, recorded, StoredDocument, Directory, JournalFile, absent, document, no_runtime,
  records_of, check_runtime, final, journal_invalid, read_document,
}
use mihomo_userctl.Transaction.Recover.Reopen.{
  reopen, opened, check_entries, check_drift, staging_fits,
}
use mihomo_userctl.Transaction.Recover.Visits.{
  Visit, recover_directory, recover_as, conclude, visited,
}
use mihomo_userctl.Transaction.Recover.Explained.{IsExplained, IsExplained-begun, check_drift-final}
use mihomo_userctl.Transaction.Recover.Writes.{IsFine}
use mihomo_userctl.Transaction.Recover.Undrifted.{run_steps-IsFine}
use mihomo_userctl.Transaction.Recover.Synced.{IsStored, PersistsAll, run_steps-Syncs}

-- A new transaction whose constructor has stored its empty journal.
pub record HasBegun (tx : Transaction) : Type 0 where
  pub fresh : IsFresh tx
  pub stored : IsStored tx
  pub no_runtime_yet : tx.runtime ≡ none

-- What is found on disk of a transaction without a runtime.
abbrev pub entries_of : List Record → List StoredEntry
entries_of [] = []
entries_of (r ∷ rs) = recorded false r ∷ entries_of rs

abbrev pub as_written : String → String → FilePath → List Record → StoredDocument
as_written id name staging journal = record {
  id = some id;
  name = some name;
  state = some "pending";
  is_old = false;
  runtime = no_runtime;
  staging = staging;
  journal = some (entries_of journal);
}

abbrev pub journal_of : String → String → FilePath → Option Document → JournalFile
journal_of id name staging none = absent
journal_of id name staging (some doc) = document (as_written id name staging doc.journal)

abbrev pub left_by : String → String → FilePath → Transaction → Directory
left_by id name staging tx = record {
  name = id;
  is_private = true;
  journal = journal_of id name staging tx.stored;
  saved = tx.saved;
}

records_of-entries_of : (rs : List Record) → records_of (entries_of rs) ≡ rs
unfolding records_of
records_of-entries_of [] = refl
records_of-entries_of (r ∷ rs) = ap (λ x. r ∷ x) (records_of-entries_of rs)

abbrev pub IsAsBefore : Files → Visit → Type 0
IsAsBefore before (r, fs, there) = (r ≡ ok tt) × Same fs before × (there ≡ false)

-- Either a document is refused and nothing is touched, or everything is as it was before, and the
-- directory is gone.
abbrev pub IsRecovered : Files → Files → (Exception → Type 0) → Visit → Type 0
IsRecovered before left refused visit =
    ((e : Exception) × refused e × (visit ≡ (raise e, left, true))) ⊎ IsAsBefore before visit

same_id : (a : String) → (some a == some a) ≡ true
same_id a = ground arith

module _ (os : Os) (out : Outside) (s : Scope) (home : FilePath) where
  -- The two reasons to refuse what a transaction left: its staging directory, or a check of one
  -- of its records.
  abbrev pub IsRefused : String → String → FilePath → Transaction → Exception → Type 0
  IsRefused id name staging tx e =
      let d = left_by id name staging tx in
      let doc = as_written id name staging tx.journal in
      let entries = entries_of tx.journal in
      ((staging_fits os out s home doc d tx.files ≡ false) × (e ≡ journal_invalid))
      ⊎ (check_entries os out s home true (opened os out s home doc d pending none entries tx.files)
            entries
          ≡ raise e)

module _ (os : Os) (out : Outside) (s : Scope) (home : FilePath) (backend : Backend)
    (before : Files) where
  -- The transaction that is read back leads back as the abandoned one does.
  LeadsBack-opened :
      (tx tx' : Transaction)
      → tx'.journal ≡ tx.journal
      → tx'.files ≡ tx.files
      → tx'.saved ≡ tx.saved
      → LeadsBack os before tx
      → LeadsBack os before tx'
  LeadsBack-opened tx tx' j f sv b = record {
    tree = rw f b.tree;
    restorable = λ q h. rw f (b.restorable q h);
    undone = rw (j, f, sv) b.undone;
  }

  visit_as_pending :
      (id name : String) (staging : FilePath) (tx : Transaction) (d : Directory)
      → d ≡ left_by id name staging tx
      → IsStored tx
      → recover_directory os out s home backend granted d tx.files
        ≡ recover_as os out s home backend granted pending
            (reopen os out s home d (as_written id name staging tx.journal) pending tx.files)
            tx.files
  unfolding recover_directory read_document string_eq
  visit_as_pending id name staging tx d e stored = simp (e, stored, same_id id) refl

  -- A reopened transaction that leads back is undone, and its directory removed.
  undone :
      (t : Transaction)
      → LeadsBack os before t
      → t.runtime ≡ none
      → IsAsBefore before (visited (conclude os out s home backend granted pending t))
  unfolding conclude
  undone t b none_runs =
      let (done, back) = rolled_back os before t b in
      let as_before : IsAsBefore before (visited (rollback os granted true t)) =
        (done, back.2, ap is_some back.1) in
      rw (restored_plainly os backend before t none_runs) as_before

  recovered :
      (id name : String) (staging : FilePath) (tx : Transaction)
      → LeadsBack os before tx
      → IsStored tx
      → tx.runtime ≡ none
      → IsFine os out s home tx
      → IsRecovered before tx.files
          (IsRefused os out s home id name staging tx)
          (recover_directory os out s home backend granted (left_by id name staging tx) tx.files)
  unfolding reopen check_runtime
  recovered id name staging tx b stored none_runs fine =
      let checks = Bool-cases (staging_fits os out s home doc d tx.files) in
      let entries = Result-cases (check_entries os out s home true t (entries_of tx.journal)) in
      rw (visit_as_pending id name staging tx d refl stored) (by_case checks entries)
    where
      d : Directory
      d = left_by id name staging tx

      doc : StoredDocument
      doc = as_written id name staging tx.journal

      t : Transaction
      t = opened os out s home doc d pending none (entries_of tx.journal) tx.files

      back : LeadsBack os before t
      back = LeadsBack-opened tx t (records_of-entries_of tx.journal) refl refl b

      explained : IsExplained os out s home t.journal tx.saved tx.files
      explained = rw (records_of-entries_of tx.journal) fine

      no_drift : check_drift os out s home t (final [] t.journal) ≡ ok tt
      no_drift = check_drift-final os out s home t explained

      by_case :
          (staging_fits os out s home doc d tx.files ≡ true)
            ⊎ (staging_fits os out s home doc d tx.files ≡ false)
          → ((a : Unit) × (check_entries os out s home true t (entries_of tx.journal) ≡ ok a))
            ⊎ ((e : Exception) × (check_entries os out s home true t (entries_of tx.journal)
                  ≡ raise e))
          → IsRecovered before tx.files (IsRefused os out s home id name staging tx) (
              recover_as os out s home backend granted pending
                (reopen os out s home d doc pending tx.files)
                tx.files)
      by_case (inr f) _ = inl (journal_invalid, inl (f, refl), simp (reopen, f) refl)
      by_case (inl f) (inr (e, h)) = inl (e, inr h, simp (reopen, f, h) refl)
      by_case (inl f) (inl (_, h)) =
          let passes : reopen os out s home d doc pending tx.files ≡ ok t =
            simp (reopen, f, h, no_drift) refl in
          inr (rw passes (undone t back refl))

module _ (os : Os) (out : Outside) (s : Scope) (home : FilePath) (backend : Backend)
    (id name : String) (staging : FilePath) (tx : Transaction) (begun : HasBegun tx)
    (xs : List Step) (reversible : All (IsReversible os tx.files) xs)
    (persists : All PersistsAll xs) where
  -- A process ends, and no handler of it runs, after any reversible steps of a new transaction without
  -- a runtime, the last one possibly cut short, at a point where it has no temporary file of a write,
  -- no directory without a record, and no half-written journal. Then the next recovery of its
  -- directory, for a kernel that refuses nothing, returns, with every path as it was before the
  -- transaction, and the directory gone; unless the staging directory is refused or a record fails its
  -- check. Then it raises that exception, and leaves the directory, and the files as the steps left
  -- them. It never takes what the steps left for a manual edit.
  pub recover-abandoned :
      let done = (run_steps os out s xs tx).1 in
      IsRecovered tx.files done.files
        (IsRefused os out s home id name staging done)
        (recover_directory os out s home backend granted (left_by id name staging done) done.files)
  recover-abandoned =
      recovered os out s home backend tx.files id name staging _
        (run_steps-LeadsBack os out s tx.files xs tx (fresh-LeadsBack os tx begun.fresh) reversible)
        ((run_steps-Syncs os out s xs persists).synced tx begun.stored)
        (((run_steps-Keeps os out s xs).kept tx).1 ∙ begun.no_runtime_yet)
        (run_steps-IsFine os out s home xs tx
          (IsExplained-begun os out s home tx.journal tx.saved tx.files begun.fresh.0))
