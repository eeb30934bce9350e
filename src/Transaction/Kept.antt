-- ===== src/Transaction/Kept.antt =====
-- What publications and deletions leave alone: the state of the runtime, and whether the
-- transaction has finished.
use mathlib.Core.List.{reverse}
use mihomo_userctl.Transaction.Destination.{check_destination}
use mihomo_userctl.Base.{
  ◌≡◌, refl, ◌∙◌, Bool, true, false, Option, none, some, List, [], ◌∷◌, ok, raise, arith, String, ℕ,
}
use mihomo_userctl.Errors.{Exception}
use mihomo_userctl.Files.{
  FilePath, Bytes, Files, Os, lstat, parent, Node, file, symlink, dir, special, Meta,
}
use mihomo_userctl.Trust.{Checked, missing}
use mihomo_userctl.Transaction.{
  Transaction, Outside, Scope, Fault, DocumentState, pending, Record, publish, regular,
}
use mihomo_userctl.Transaction.Exec.{Exec, ◌>>=◌, pure, throw, continue, check, on_files, gets}
use mihomo_userctl.Transaction.Publish.{
  persist, save, save_link, stage, append_record, write_recorded, publish_over, write_bytes,
  delete_at, refuse_if, read_staged, delete_recorded, make_some, atomic_write, restore_owner,
  stage_name, unlink, check_marker, fails_write, persist_fault, blank,
}
use mihomo_userctl.Transaction.Publish
use mihomo_userctl.Transaction.Run.{Step, write, delete, fail, run_step, run_steps}

abbrev pub AreKept : Transaction → Transaction → Type 0
AreKept tx tx' = (tx'.finished ≡ tx.finished) × (tx'.runtime ≡ tx.runtime)

pub record Keeps {A : Type 0} (m : Exec A) : Type 0 where
  pub kept : (tx : Transaction) → AreKept tx (m tx).1

Keeps-bind :
    {A B : Type 0} (m : Exec A) (k : A → Exec B)
    → Keeps m
    → ((a : A) → Keeps (k a))
    → Keeps (m >>= k)
Keeps-bind {A} {B} m k h g = record { kept = λ tx. rest tx (m tx) (h.kept tx) }
  where
    rest :
        (tx : Transaction) (r : Checked A × Transaction)
        → AreKept tx r.1
        → AreKept tx (continue r.0 k r.1).1
    rest tx (ok a, tx') (e, e') = let (f, f') = (g a).kept tx' in (f ∙ e, f' ∙ e')
    rest tx (raise e, tx') h = h

persist-Keeps : (refusal : Option Exception) (state : DocumentState) → Keeps (persist refusal state)
unfolding persist
persist-Keeps none state = record { kept = λ tx. (refl, refl) }
persist-Keeps (some e) state = record { kept = λ tx. (refl, refl) }

gets-Keeps : {A : Type 0} (f : Transaction → A) → Keeps (gets f)
gets-Keeps f = record { kept = λ tx. (refl, refl) }

check-Keeps : {A : Type 0} (f : Transaction → Checked A) → Keeps (check f)
check-Keeps f = record { kept = λ tx. (refl, refl) }

on_files-Keeps : {A : Type 0} (f : Files → Checked A × Files) → Keeps (on_files f)
on_files-Keeps f = record { kept = λ tx. (refl, refl) }

refuse_if-Keeps : (refused : Bool) → Keeps (refuse_if refused)
refuse_if-Keeps refused = record { kept = λ tx. (refl, refl) }

pure-Keeps : {A : Type 0} (a : A) → Keeps (pure a)
pure-Keeps a = record { kept = λ tx. (refl, refl) }

throw-Keeps : {A : Type 0} (e : Exception) → Keeps (throw {A = A} e)
throw-Keeps e = record { kept = λ tx. (refl, refl) }

module _ (os : Os) (out : Outside) (fault : Fault) where
  save-Keeps : (p : FilePath) (b : Bytes) → Keeps (save os out fault p b)
  unfolding save
  save-Keeps p b = record { kept = λ tx. ground arith }

  save_link-Keeps : (p : FilePath) → Keeps (save_link os out fault p)
  unfolding save_link
  save_link-Keeps p = record { kept = λ tx. ground arith }

  append_record-Keeps : (r : Record) → Keeps (append_record os out fault r)
  unfolding append_record
  append_record-Keeps r = record { kept = λ tx. (refl, refl) }

  stage-Keeps : (name : String) (content : Bytes) → Keeps (stage os out fault name content)
  unfolding stage
  stage-Keeps name content = record { kept = λ tx. ground arith }

  read_staged-Keeps : (name : String) → Keeps (read_staged os out fault name)
  read_staged-Keeps name = record { kept = λ tx. (refl, refl) }

  write_recorded-Keeps :
      (staged : String) (p : FilePath) (mode : ℕ) (before : Option Meta) (r : Record)
      → Keeps (write_recorded os out fault staged p mode before r)
  unfolding write_recorded
  write_recorded-Keeps staged p mode before r =
      Keeps-bind _ _ (gets-Keeps (λ tx. missing os tx.files (parent p))) (λ dirs.
        Keeps-bind _ _ (on_files-Keeps (make_some os fault (reverse dirs))) (λ _.
          Keeps-bind _ _ (read_staged-Keeps staged) (λ content.
            Keeps-bind _ _
              (append_record-Keeps
                (record r { created_dirs = dirs; published_sha256 = some (out.sha256 content) }))
              (λ _. Keeps-bind _ _ (persist-Keeps (persist_fault fault) pending) (λ _.
                Keeps-bind _ _ (on_files-Keeps (atomic_write os fault p content mode))
                  (λ _. on_files-Keeps (restore_owner os out fault p before)))))))

  publish_over-Keeps :
      (staged : String) (p : FilePath) (mode : Option ℕ) (found : Option Node)
      → Keeps (publish_over os out fault staged p mode found)
  unfolding publish_over
  publish_over-Keeps staged p mode none =
      write_recorded-Keeps staged p _ none
        (record (blank os out fault publish p) { created = true })
  publish_over-Keeps staged p mode (some (file b m)) = Keeps-bind _ _ (save-Keeps p b) (λ name.
      write_recorded-Keeps staged p _ (some m) (record (blank os out fault publish p) {
        type = some regular;
        meta = some m;
        backup = some name;
      }))
  publish_over-Keeps staged p mode (some (symlink t m)) = throw-Keeps _
  publish_over-Keeps staged p mode (some (dir m)) = throw-Keeps _
  publish_over-Keeps staged p mode (some (special m)) = throw-Keeps _

  module _ (s : Scope) where
    write_bytes-Keeps :
        (p : FilePath) (content : Bytes) (mode : Option ℕ)
        → Keeps (write_bytes os out fault s p content mode)
    unfolding write_bytes Publish.publish
    write_bytes-Keeps p content mode =
        Keeps-bind _ _ (stage-Keeps (stage_name os out fault s p) content) (λ _.
          Keeps-bind _ _ (check-Keeps (λ tx. check_destination os s tx p)) (λ _.
            Keeps-bind _ _ (gets-Keeps (λ tx. lstat tx.files p))
              (publish_over-Keeps (stage_name os out fault s p) p mode)))

    delete_recorded-Keeps : (p : FilePath) (r : Record) → Keeps (delete_recorded os out fault s p r)
    delete_recorded-Keeps p r = Keeps-bind _ _ (append_record-Keeps r) (λ _.
        Keeps-bind _ _ (persist-Keeps (persist_fault fault) pending) (λ _.
          Keeps-bind _ _ (refuse_if-Keeps (fails_write fault))
            (λ _. Keeps-bind _ _ (on_files-Keeps (unlink p)) (λ _. pure-Keeps true))))

    delete_at-Keeps :
        (p : FilePath) (marker : Option String) (found : Option Node)
        → Keeps (delete_at os out fault s p marker found)
    unfolding delete_at
    delete_at-Keeps p marker none = pure-Keeps false
    delete_at-Keeps p marker (some (dir m)) = throw-Keeps _
    delete_at-Keeps p marker (some (file b m)) =
        Keeps-bind _ _ (check-Keeps (check_marker os out fault s p marker (file b m)))
          (λ _. Keeps-bind _ _ (save-Keeps p b) (λ name. delete_recorded-Keeps p _))
    delete_at-Keeps p marker (some (symlink t m)) =
        Keeps-bind _ _ (check-Keeps (check_marker os out fault s p marker (symlink t m)))
          (λ _. Keeps-bind _ _ (save_link-Keeps p) (λ name. delete_recorded-Keeps p _))
    delete_at-Keeps p marker (some (special m)) =
        Keeps-bind _ _ (check-Keeps (check_marker os out fault s p marker (special m)))
          (λ _. throw-Keeps _)

    delete-Keeps :
        (p : FilePath) (marker : Option String) → Keeps (Publish.delete os out fault s p marker)
    unfolding Publish.delete
    delete-Keeps p marker =
        Keeps-bind _ _ (check-Keeps (λ tx. check_destination os s tx p))
          (λ _. Keeps-bind _ _ (gets-Keeps (λ tx. lstat tx.files p)) (delete_at-Keeps p marker))

module _ (os : Os) (out : Outside) (s : Scope) where
  run_step-Keeps : (x : Step) → Keeps (run_step os out s x)
  unfolding run_step
  run_step-Keeps (write fault p content mode) = write_bytes-Keeps os out fault s p content mode
  run_step-Keeps (delete fault p marker) =
      Keeps-bind _ _ (delete-Keeps os out fault s p marker) (λ _. pure-Keeps tt)
  run_step-Keeps (fail e) = throw-Keeps e

  pub run_steps-Keeps : (xs : List Step) → Keeps (run_steps os out s xs)
  unfolding run_steps
  run_steps-Keeps [] = pure-Keeps tt
  run_steps-Keeps (x ∷ xs) = Keeps-bind _ _ (run_step-Keeps x) (λ _. run_steps-Keeps xs)
