-- ===== src/Transaction/Recover/Undrifted.antt =====
-- What an operation of mihomoctl/transaction.py leaves at any of its calls is explained by its journal, so
-- that `recover_transactions` does not take it for a manual edit.
use mihomo_userctl.Base.{
  ◌≡◌, refl, inl, inr, String, Option, none, some, List, [], ◌∷◌, ◌++◌, Bool-cases, nat_eq,
}
use mihomo_userctl.Files.{FilePath, path_eq, Node, file, symlink, dir, special, Os, lstat}
use mihomo_userctl.Transaction.{
  Transaction, Outside, Scope, Fault, Record, delete as delete_op, regular, Backup_eq,
}
use mihomo_userctl.Transaction.Destination.{check_destination}
use mihomo_userctl.Transaction.Publish
use mihomo_userctl.Transaction.Publish.{
  persist, save, save_link, stage, append_record, write_recorded, publish_over, write_bytes,
  delete_at, refuse_if, read_staged, fails_write, delete_recorded, make_some, atomic_write,
  restore_owner, stage_name, unlink, check_marker, fails_stage, fails_backup, persist_fault, blank,
  chown,
}
use mihomo_userctl.Transaction.Run.{Step, write, delete, fail, run_step, run_steps}
use mihomo_userctl.Transaction.Recover.Explained.{IsExplained-logged}
use mihomo_userctl.Transaction.Recover.Contents.{unlink-KeepsContents}
use mihomo_userctl.Transaction.Recover.Writes.{
  IsFine, continue-IsFine, kept-IsFine, Covers, persist-IsFine, save-IsFine, write_bytes-IsFine,
}

module _ (os : Os) (out : Outside) (s : Scope) (home : FilePath) where
  module _ (fault : Fault) where
    delete_recorded-IsFine :
        (p : FilePath) (r : Record) (tx : Transaction)
        → Covers os out s home fault r tx
        → IsFine os out s home tx
        → IsFine os out s home (delete_recorded os out fault s p r tx).1
    unfolding append_record
    delete_recorded-IsFine p r tx covers h =
        let logged = IsExplained-logged os out s home tx.journal tx.saved tx.files r covers h in
        let tx1 = record tx { journal = tx.journal ++ r ∷ [] } in
        persist-IsFine os out s home fault (persist_fault fault) _ tx1 logged (λ at.
          continue-IsFine os out s home (refuse_if (fails_write fault) tx1).0 _
            (record tx1 { stored = at }) logged
            (λ _ _.
              let (r, fs) = unlink p tx.files in
              let now = kept-IsFine os out s home tx1 fs (unlink-KeepsContents p tx.files) logged in
              continue-IsFine os out s home r _ (record tx1 { stored = at; files = fs }) now
                (λ _ _. now)))

    delete_at-IsFine :
        (p : FilePath) (marker : Option String) (found : Option Node) (tx : Transaction)
        → lstat tx.files p ≡ found
        → IsFine os out s home tx
        → IsFine os out s home (delete_at os out fault s p marker found tx).1
    unfolding delete_at save_link
    delete_at-IsFine p marker none tx at h = h
    delete_at-IsFine p marker (some (dir m)) tx at h = h
    delete_at-IsFine p marker (some (file b m)) tx at h =
        continue-IsFine os out s home (check_marker os out fault s p marker (file b m) tx) _ tx h
          (λ _ _. save-IsFine os out s home fault p b m _ tx at h (λ name tx' covers h'.
            let r = record (blank os out fault delete_op p) {
              type = some regular;
              meta = some m;
              backup = some name;
            } in
            delete_recorded-IsFine p r tx' (covers r refl refl) h'))
    delete_at-IsFine p marker (some (symlink t m)) tx at h =
        continue-IsFine os out s home (check_marker os out fault s p marker (symlink t m) tx) _ tx h
          (λ _ _. elim (Bool-cases (fails_backup fault)) [
            | inl e ↦ rw e h
            | inr e ↦ rw e (delete_recorded-IsFine p _ tx (λ b m' e. absurd (cc (e, at))) h)
          ])
    delete_at-IsFine p marker (some (special m)) tx at h =
        continue-IsFine os out s home (check_marker os out fault s p marker (special m) tx) _ tx h
          (λ _ _. h)

    delete-IsFine :
        (p : FilePath) (marker : Option String) (tx : Transaction)
        → IsFine os out s home tx
        → IsFine os out s home (Publish.delete os out fault s p marker tx).1
    unfolding Publish.delete
    delete-IsFine p marker tx h =
        continue-IsFine os out s home (check_destination os s tx p) _ tx h
          (λ _ _. delete_at-IsFine p marker (lstat tx.files p) tx refl h)

  run_step-IsFine :
      (x : Step) (tx : Transaction)
      → IsFine os out s home tx
      → IsFine os out s home (run_step os out s x tx).1
  unfolding run_step
  run_step-IsFine (write fault p content mode) tx h =
      write_bytes-IsFine os out s home fault p content mode tx h
  run_step-IsFine (delete fault p marker) tx h =
      let (r, tx') = Publish.delete os out fault s p marker tx in
      let h' = delete-IsFine fault p marker tx h in
      continue-IsFine os out s home r _ tx' h' (λ _ _. h')
  run_step-IsFine (fail e) tx h = h

  -- Whatever steps ran, and at whatever call they stopped.
  pub run_steps-IsFine :
      (xs : List Step) (tx : Transaction)
      → IsFine os out s home tx
      → IsFine os out s home (run_steps os out s xs tx).1
  unfolding run_steps
  run_steps-IsFine [] tx h = h
  run_steps-IsFine (x ∷ xs) tx h =
      let (r, tx') = run_step os out s x tx in
      let h' = run_step-IsFine x tx h in
      continue-IsFine os out s home r _ tx' h' (λ _ _. run_steps-IsFine xs tx' h')
