-- ===== src/Transaction/Atomicity.antt =====
-- A transaction that does not commit leaves the files as they were.
use mathlib.Core.List.{reverse, reverse-append}
use mihomo_userctl.Base.{◌≡◌, refl, ◌∙◌, Bool, true, false, none, List, [], ◌∷◌, ok, raise, All}
use mihomo_userctl.Base.Dict.{Dict}
use mihomo_userctl.Files.{FilePath, Bytes, Files, Os, lstat}
use mihomo_userctl.Files.Laws.{Same, IsTree}
use mihomo_userctl.Trust.{Checked}
use mihomo_userctl.Transaction.{Backup, Record, Transaction, Outside, Scope}
use mihomo_userctl.Transaction.Exec.{Exec, ◌>>=◌, pure, continue}
use mihomo_userctl.Transaction.Publish.{persist, write_bytes}
use mihomo_userctl.Transaction.Publish
use mihomo_userctl.Transaction.Rollback.{
  Refusals, undo, undo_all, handled, and_then, rollback, cleanup,
}
use mihomo_userctl.Transaction.Restorable.{IsRestorable}
use mihomo_userctl.Transaction.Undo.{Extends}
use mihomo_userctl.Transaction.Effects.{IsClean, Effect, IsSound}
use mihomo_userctl.Transaction.Operations.{write_bytes-IsSound, delete-IsSound}
use mihomo_userctl.Transaction.Run.{Backend, Step, write, delete, fail, run_step, run_steps}

abbrev unrefused : Record → Bool
unrefused r = false

-- The journal leads from the files of `tx` back to `fs`, with these backups or more.
pub record LeadsBack (os : Os) (fs : Files) (tx : Transaction) : Type 0 where
  pub tree : IsTree tx.files
  pub restorable :
      (q : FilePath) → IsRestorable os (lstat fs q) → IsRestorable os (lstat tx.files q)
  pub undone :
      (saved : Dict Backup Bytes) (g : Files)
      → Extends tx.saved saved
      → Same g tx.files
      → (g' : Files) × (undo_all os unrefused saved (reverse tx.journal) [] g ≡ (ok [], g'))
        × Same g' fs

handled_ok :
    (os : Os) (p : FilePath) (failures : List FilePath) (x : Checked Unit × Files)
    (k : List FilePath → Files → Checked (List FilePath) × Files)
    → x.0 ≡ ok tt
    → and_then os (handled os p failures x) k ≡ k failures x.1
handled_ok os p failures (ok _, fs) k h = refl
handled_ok os p failures (raise e, fs) k h = cc

-- A record that can be undone is taken off the journal.
undo_all_step :
    (os : Os) (saved : Dict Backup Bytes) (r : Record) (rs : List Record) (g : Files)
    → (undo os saved r g).0 ≡ ok tt
    → undo_all os unrefused saved (r ∷ rs) [] g
      ≡ undo_all os unrefused saved rs [] (undo os saved r g).1
unfolding undo_all
undo_all_step os saved r rs g h = handled_ok os r.path [] (undo os saved r g) _ h

module _ (os : Os) (fs : Files) (tx tx' : Transaction) (back : LeadsBack os fs tx) where
  undone_by :
      Effect os tx.journal tx.files tx'
      → Extends tx.saved tx'.saved
      → (saved : Dict Backup Bytes) (g : Files) → Extends tx'.saved saved
      → Same g tx'.files
      → (g' : Files) × (undo_all os unrefused saved (reverse tx'.journal) [] g ≡ (ok [], g'))
        × Same g' fs
  undone_by (Effect.quiet j same) x saved g y h =
      rw j (back.undone saved g (λ k b e. y k b (x k b e)) (λ p. h p ∙ same p))
  undone_by (Effect.logged r j revert) x saved g y h =
      let (e, same) = revert saved y g h in
      rw (j, reverse-append tx.journal (r ∷ []), undo_all_step os saved r (reverse tx.journal) g e)
        (back.undone saved _ (λ k b e. y k b (x k b e)) same)

  LeadsBack-step : IsSound os tx tx' → LeadsBack os fs tx'
  LeadsBack-step s = record {
    tree = s.tree;
    restorable = λ q h. s.restorable q (back.restorable q h);
    undone = undone_by s.effect s.extends;
  }

-- Where a transaction begins: nothing journalled.
abbrev pub IsFresh : Transaction → Type 0
IsFresh tx = (tx.journal ≡ []) × IsTree tx.files

pub fresh-LeadsBack : (os : Os) (tx : Transaction) → IsFresh tx → LeadsBack os tx.files tx
unfolding undo_all
fresh-LeadsBack os tx (e, t) = record {
  tree = t;
  restorable = λ q h. h;
  undone = λ saved g y same. (g, rw e refl, same);
}

-- A step whose destination can be put back, and in which no `mkdir` fails after another.
abbrev pub IsReversible : Os → Files → Step → Type 0
IsReversible os fs (write fault p content mode) = IsClean fault × IsRestorable os (lstat fs p)
IsReversible os fs (delete fault p marker) = IsRestorable os (lstat fs p)
IsReversible os fs (fail e) = Unit

module _ (os : Os) (out : Outside) (s : Scope) (fs : Files) where
  dropped :
      {A B : Type 0} (m : Exec A) (b : B) (tx : Transaction) → ((m >>= λ _. pure b) tx).1 ≡ (m tx).1
  dropped {A} {B} m b tx = rest (m tx)
    where
      rest : (r : Checked A × Transaction) → (continue r.0 (λ _. pure b) r.1).1 ≡ r.1
      rest (ok a, tx') = refl
      rest (raise e, tx') = refl

  run_step-LeadsBack :
      (x : Step) (tx : Transaction)
      → LeadsBack os fs tx
      → IsReversible os fs x
      → LeadsBack os fs (run_step os out s x tx).1
  unfolding run_step
  run_step-LeadsBack (write fault p content mode) tx b h =
      LeadsBack-step os fs tx _ b
        (write_bytes-IsSound os out fault s p tx b.tree content mode h.0 (b.restorable p h.1))
  run_step-LeadsBack (delete fault p marker) tx b h = LeadsBack-step os fs tx _ b (
      rw (dropped (Publish.delete os out fault s p marker) tt tx)
        (delete-IsSound os out fault s p tx b.tree marker (b.restorable p h)))
  run_step-LeadsBack (fail e) tx b h = b

  -- After any steps, each of which may fail at any call, the journal leads back.
  pub run_steps-LeadsBack :
      (xs : List Step) (tx : Transaction)
      → LeadsBack os fs tx
      → All (IsReversible os fs) xs
      → LeadsBack os fs (run_steps os out s xs tx).1
  unfolding run_steps
  run_steps-LeadsBack [] tx b h = b
  run_steps-LeadsBack (x ∷ xs) tx b h =
      rest (run_step os out s x tx) (run_step-LeadsBack x tx b h.0)
        (λ tx' b'. run_steps-LeadsBack xs tx' b' h.1)
    where
      rest :
          (r : Checked Unit × Transaction)
          → LeadsBack os fs r.1
          → ((tx' : Transaction)
              → LeadsBack os fs tx'
              → LeadsBack os fs (run_steps os out s xs tx').1)
          → LeadsBack os fs (continue r.0 (λ _. run_steps os out s xs) r.1).1
      rest (ok _, tx') b' k = k tx' b'
      rest (raise e, tx') b' k = b'

-- The kernel refuses nothing while the transaction ends.
abbrev pub granted : Refusals
granted = record { undoing = unrefused; persisting = none; cleaning = false }

-- What is left when the transaction was rolled back.
abbrev pub IsRolledBack : Files → Transaction → Type 0
IsRolledBack fs tx = (tx.finished ≡ true) × (tx.stored ≡ none) × Same tx.files fs

pub rolled_back :
    (os : Os) (fs : Files) (tx : Transaction)
    → LeadsBack os fs tx
    → ((rollback os granted true tx).0 ≡ ok tt) × IsRolledBack fs (rollback os granted true tx).1
unfolding rollback persist cleanup
rolled_back os fs tx b =
    let (g, e, same) = b.undone tx.saved tx.files (λ k c h. h) (λ p. refl) in
    rw e (refl, (refl, refl, same))

module _ (os : Os) (out : Outside) (s : Scope) (backend : Backend) (tx : Transaction)
    (fresh : IsFresh tx) (xs : List Step) (reversible : All (IsReversible os tx.files) xs) where
  -- Whatever steps a transaction took, each of them possibly cut short by a failing system call,
  -- its rollback succeeds, marks it finished, removes its journal and gives every path the entry
  -- that it had before the first step, if the kernel refuses nothing during the rollback, no
  -- `mkdir` of a step failed after another one of that step, and what the steps write or delete
  -- could be given back to its owner.
  pub rollback-run_steps :
      let done = (run_steps os out s xs tx).1 in
      ((rollback os granted true done).0 ≡ ok tt)
      × IsRolledBack tx.files (rollback os granted true done).1
  rollback-run_steps =
      rolled_back os tx.files _
        (run_steps-LeadsBack os out s tx.files xs tx (fresh-LeadsBack os tx fresh) reversible)
