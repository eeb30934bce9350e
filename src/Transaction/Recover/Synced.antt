-- ===== src/Transaction/Recover/Synced.antt =====
-- The document that `_persist` stores is what the transaction of mihomoctl/transaction.py has in memory,
-- between its operations and inside them, but for an operation whose own `_persist` fails.
use mathlib.Core.List.{reverse}
use mihomo_userctl.Base.{
  ℕ, ◌≡◌, refl, String, true, Option, none, some, List, [], ◌∷◌, ok, raise, All, inl, inr,
  Bool-cases, arith,
}
use mihomo_userctl.Files.{
  FilePath, Bytes, Os, lstat, parent, Node, file, symlink, dir, special, Meta,
}
use mihomo_userctl.Trust.{Checked, missing}
use mihomo_userctl.Transaction.{
  Transaction, Outside, Scope, Fault, pending, Record, publish, regular,
}
use mihomo_userctl.Transaction.Exec.{Exec, ◌>>=◌, continue, check, on_files, gets, ◌>>◌}
use mihomo_userctl.Transaction.Destination.{check_destination}
use mihomo_userctl.Transaction.Publish
use mihomo_userctl.Transaction.Publish.{
  persist, save, save_link, stage, append_record, write_recorded, publish_over, write_bytes,
  delete_at, refuse_if, read_staged, delete_recorded, make_some, atomic_write, restore_owner,
  stage_name, unlink, check_marker, fails_write, fails_stage, persist_fault, blank,
}
use mihomo_userctl.Transaction.Run.{Step, write, delete, fail, run_step, run_steps}

abbrev pub IsStored : Transaction → Type 0
IsStored tx =
    tx.stored ≡ some (record { state = pending; journal = tx.journal; runtime = tx.runtime })

pub record Syncs {A : Type 0} (m : Exec A) : Type 0 where
  pub synced : (tx : Transaction) → IsStored tx → IsStored (m tx).1

Syncs-bind :
    {A B : Type 0} (m : Exec A) (k : A → Exec B)
    → Syncs m
    → ((a : A) → Syncs (k a))
    → Syncs (m >>= k)
Syncs-bind {A} {B} m k h g = record { synced = λ tx before. rest (m tx) (h.synced tx before) }
  where
    rest : (r : Checked A × Transaction) → IsStored r.1 → IsStored (continue r.0 k r.1).1
    rest (ok a, tx') at = (g a).synced tx' at
    rest (raise e, tx') at = at

-- What leaves the journal, the runtime and the document alone.
Syncs-plain :
    {A : Type 0} (m : Exec A) → ((tx : Transaction) → IsStored tx → IsStored (m tx).1) → Syncs m
Syncs-plain m h = record { synced = h }

gets-Syncs : {A : Type 0} (f : Transaction → A) → Syncs (gets f)
gets-Syncs f = record { synced = λ tx h. h }

-- A crash while the journal is written is another matter.
abbrev pub PersistsAll : Step → Type 0
PersistsAll (write fault p content mode) = persist_fault fault ≡ none
PersistsAll (delete fault p marker) = persist_fault fault ≡ none
PersistsAll (fail e) = Unit

module _ (os : Os) (out : Outside) (fault : Fault) (persists : persist_fault fault ≡ none) where
  -- A record that is appended and stored.
  logged-Syncs :
      {A : Type 0} (r : Record) (k : Unit → Exec A)
      → Syncs (k tt)
      → Syncs (append_record os out fault r >>= λ _. persist (persist_fault fault) pending >>= k)
  unfolding append_record persist
  logged-Syncs r k h = record { synced = λ tx before. rw persists (h.synced _ refl) }

  save-Syncs : (p : FilePath) (b : Bytes) → Syncs (save os out fault p b)
  unfolding save
  save-Syncs p b = record { synced = λ tx h. ground arith }

  save_link-Syncs : (p : FilePath) → Syncs (save_link os out fault p)
  unfolding save_link
  save_link-Syncs p = record { synced = λ tx h. ground arith }

  stage-Syncs : (name : String) (content : Bytes) → Syncs (stage os out fault name content)
  unfolding stage
  stage-Syncs name content = record {
    synced = λ tx h. elim (Bool-cases (fails_stage fault)) [ inl e ↦ rw e h | inr e ↦ rw e h ];
  }

  write_recorded-Syncs :
      (staged : String) (p : FilePath) (mode : ℕ) (before : Option Meta) (r : Record)
      → Syncs (write_recorded os out fault staged p mode before r)
  unfolding write_recorded
  write_recorded-Syncs staged p mode before r =
      Syncs-bind _ _ (gets-Syncs (λ tx. missing os tx.files (parent p))) (λ dirs.
        Syncs-bind _ _ (Syncs-plain (on_files (make_some os fault (reverse dirs))) (λ tx h. h))
          (λ _.
            Syncs-bind _ _ (Syncs-plain (read_staged os out fault staged) (λ tx h. h)) (λ content.
              logged-Syncs
                (record r { created_dirs = dirs; published_sha256 = some (out.sha256 content) })
                (λ _.
                  on_files (atomic_write os fault p content mode)
                  >> on_files (restore_owner os out fault p before))
                (Syncs-bind _ _
                  (Syncs-plain (on_files (atomic_write os fault p content mode)) (λ tx h. h))
                  (λ _.
                    Syncs-plain (on_files (restore_owner os out fault p before)) (λ tx h. h))))))

  publish_over-Syncs :
      (staged : String) (p : FilePath) (mode : Option ℕ) (found : Option Node)
      → Syncs (publish_over os out fault staged p mode found)
  unfolding publish_over
  publish_over-Syncs staged p mode none =
      write_recorded-Syncs staged p _ none
        (record (blank os out fault publish p) { created = true })
  publish_over-Syncs staged p mode (some (file b m)) = Syncs-bind _ _ (save-Syncs p b) (λ name.
      write_recorded-Syncs staged p _ (some m) (record (blank os out fault publish p) {
        type = some regular;
        meta = some m;
        backup = some name;
      }))
  publish_over-Syncs staged p mode (some (symlink t m)) = Syncs-plain _ (λ tx h. h)
  publish_over-Syncs staged p mode (some (dir m)) = Syncs-plain _ (λ tx h. h)
  publish_over-Syncs staged p mode (some (special m)) = Syncs-plain _ (λ tx h. h)

  module _ (s : Scope) where
    write_bytes-Syncs :
        (p : FilePath) (content : Bytes) (mode : Option ℕ)
        → Syncs (write_bytes os out fault s p content mode)
    unfolding write_bytes Publish.publish
    write_bytes-Syncs p content mode =
        Syncs-bind _ _ (stage-Syncs (stage_name os out fault s p) content) (λ _.
          Syncs-bind _ _ (Syncs-plain (check (λ tx. check_destination os s tx p)) (λ tx h. h)) (λ _.
            Syncs-bind _ _ (gets-Syncs (λ tx. lstat tx.files p))
              (publish_over-Syncs (stage_name os out fault s p) p mode)))

    delete_recorded-Syncs : (p : FilePath) (r : Record) → Syncs (delete_recorded os out fault s p r)
    delete_recorded-Syncs p r = logged-Syncs r _ (
        Syncs-bind _ _ (Syncs-plain (refuse_if (fails_write fault)) (λ tx h. h)) (λ _.
          Syncs-bind _ _ (Syncs-plain (on_files (unlink p)) (λ tx h. h))
            (λ _. Syncs-plain _ (λ tx h. h))))

    delete_at-Syncs :
        (p : FilePath) (marker : Option String) (found : Option Node)
        → Syncs (delete_at os out fault s p marker found)
    unfolding delete_at
    delete_at-Syncs p marker none = Syncs-plain _ (λ tx h. h)
    delete_at-Syncs p marker (some (dir m)) = Syncs-plain _ (λ tx h. h)
    delete_at-Syncs p marker (some (file b m)) =
        Syncs-bind _ _
          (Syncs-plain (check (check_marker os out fault s p marker (file b m))) (λ tx h. h))
          (λ _. Syncs-bind _ _ (save-Syncs p b) (λ name. delete_recorded-Syncs p _))
    delete_at-Syncs p marker (some (symlink t m)) =
        Syncs-bind _ _
          (Syncs-plain (check (check_marker os out fault s p marker (symlink t m))) (λ tx h. h))
          (λ _. Syncs-bind _ _ (save_link-Syncs p) (λ name. delete_recorded-Syncs p _))
    delete_at-Syncs p marker (some (special m)) =
        Syncs-bind _ _
          (Syncs-plain (check (check_marker os out fault s p marker (special m))) (λ tx h. h))
          (λ _. Syncs-plain _ (λ tx h. h))

    delete-Syncs :
        (p : FilePath) (marker : Option String) → Syncs (Publish.delete os out fault s p marker)
    unfolding Publish.delete
    delete-Syncs p marker =
        Syncs-bind _ _ (Syncs-plain (check (λ tx. check_destination os s tx p)) (λ tx h. h))
          (λ _. Syncs-bind _ _ (gets-Syncs (λ tx. lstat tx.files p)) (delete_at-Syncs p marker))

module _ (os : Os) (out : Outside) (s : Scope) where
  run_step-Syncs : (x : Step) → PersistsAll x → Syncs (run_step os out s x)
  unfolding run_step
  run_step-Syncs (write fault p content mode) h = write_bytes-Syncs os out fault h s p content mode
  run_step-Syncs (delete fault p marker) h =
      Syncs-bind _ _ (delete-Syncs os out fault h s p marker) (λ _. Syncs-plain _ (λ tx k. k))
  run_step-Syncs (fail e) h = Syncs-plain _ (λ tx k. k)

  pub run_steps-Syncs : (xs : List Step) → All PersistsAll xs → Syncs (run_steps os out s xs)
  unfolding run_steps
  run_steps-Syncs [] h = Syncs-plain _ (λ tx k. k)
  run_steps-Syncs (x ∷ xs) h = Syncs-bind _ _ (run_step-Syncs x h.0) (λ _. run_steps-Syncs xs h.1)
