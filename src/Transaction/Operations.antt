-- ===== src/Transaction/Operations.antt =====
-- Every operation of a transaction, on every branch: what it does to the files and the journal.
use mihomo_userctl.Base.{
  ℕ, ◌≡◌, ◌⊎◌, refl, inl, inr, String, Option, none, some, [], ◌∷◌, arith, string_eq, nat_eq,
  Bool-cases, Result-cases, ok, raise, length,
}
use mihomo_userctl.Base.Dict
use mihomo_userctl.Base.Dict.{get-put_self}
use mihomo_userctl.Errors.{os_error}
use mihomo_userctl.Files.{
  FilePath, path_eq, Bytes, Node, file, symlink, dir, special, Os, lstat, parents,
}
use mihomo_userctl.Files.Laws.{IsTree}
use mihomo_userctl.Trust.Ancestors.{AreSafe}
use mihomo_userctl.Transaction.{Backup, Backup_eq, Transaction, Outside, Scope, Fault}
use mihomo_userctl.Transaction.Destination.{check_destination, check_destination_ok}
use mihomo_userctl.Transaction.Publish.{
  stage_name, save_link, publish_over, publish, write_bytes, delete_at, delete, or_mode,
  check_marker, fails_stage,
}
use mihomo_userctl.Transaction.Restorable.{IsRestorable}
use mihomo_userctl.Transaction.Effects.{
  IsClean, IsSound, same-IsSound, save_run, created-IsSound, replaced-IsSound,
}
use mihomo_userctl.Transaction.Deletes.{deleted-IsSound, unlinked-IsSound}

module _ (os : Os) (out : Outside) (fault : Fault) (s : Scope) (p : FilePath) (tx : Transaction)
    (t : IsTree tx.files) where
  unchanged : IsSound os tx tx
  unchanged = same-IsSound os tx tx t refl refl (λ k b h. h)

  publish_over-IsSound :
      (name : String) (mode : Option ℕ) (content : Bytes) (n : Option Node)
      → lstat tx.files p ≡ n
      → IsClean fault
      → Dict.get tx.staged name ≡ some content
      → AreSafe (0 ∷ os.uid ∷ []) tx.files (parents p)
      → IsRestorable os n
      → IsSound os tx (publish_over os out fault name p mode n tx).1
  unfolding publish_over
  publish_over-IsSound name mode content none e clean staged safe own =
      created-IsSound os out fault (0 ∷ os.uid ∷ []) p (or_mode os out fault mode 0o600) name
        content tx t clean staged e safe
  publish_over-IsSound name mode content (some (file b m)) e clean staged safe own =
      elim (save_run os out fault p b tx) [
        | inl f ↦ rw f unchanged
        | inr (fresh, f) ↦ rw f (
            replaced-IsSound os out fault p b tx m (or_mode os out fault mode m.mode) name content t
              staged fresh e own)
      ]
  publish_over-IsSound name mode content (some (symlink _ _)) e clean staged safe own = unchanged
  publish_over-IsSound name mode content (some (dir _)) e clean staged safe own = unchanged
  publish_over-IsSound name mode content (some (special _)) e clean staged safe own = unchanged

  publish-IsSound :
      (name : String) (mode : Option ℕ) (content : Bytes)
      → IsClean fault
      → Dict.get tx.staged name ≡ some content
      → IsRestorable os (lstat tx.files p)
      → IsSound os tx (publish os out fault s name p mode tx).1
  unfolding publish
  publish-IsSound name mode content clean staged own =
      elim (Result-cases (check_destination os s tx p)) [
        | inr (x, e) ↦ rw e unchanged
        | inl (_, e) ↦ rw e (
            publish_over-IsSound name mode content (lstat tx.files p) refl clean staged
              ((check_destination_ok os s tx p).0 e).1 own)
      ]

  abbrev link_name : Transaction → Backup
  link_name x = record { number = length x.journal; flat = out.flatten p }

  save_link_run :
      (save_link os out fault p tx ≡ (raise os_error, tx))
      ⊎ (save_link os out fault p tx ≡ (ok (link_name tx), tx))
  unfolding save_link
  save_link_run = ground arith

  delete_at-IsSound :
      (marker : Option String) (n : Option Node)
      → lstat tx.files p ≡ n
      → IsRestorable os n
      → IsSound os tx (delete_at os out fault s p marker n tx).1
  unfolding delete_at
  delete_at-IsSound marker none e own = unchanged
  delete_at-IsSound marker (some (dir m)) e own = unchanged
  delete_at-IsSound marker (some (file b m)) e own =
      elim (Result-cases (check_marker os out fault s p marker (file b m) tx)) [
        | inr (x, c) ↦ rw c unchanged
        | inl (_, c) ↦ elim (save_run os out fault p b tx) [
          | inl f ↦ rw (c, f) unchanged
          | inr (fresh, f) ↦ rw (c, f) (deleted-IsSound os out fault s p tx t b m fresh e own)
        ]
      ]
  delete_at-IsSound marker (some (symlink l m)) e own =
      elim (Result-cases (check_marker os out fault s p marker (symlink l m) tx)) [
        | inr (x, c) ↦ rw c unchanged
        | inl (_, c) ↦ elim save_link_run [
          | inl f ↦ rw (c, f) unchanged
          | inr f ↦ rw (c, f) (unlinked-IsSound os out fault s p tx t l m (link_name tx) e own)
        ]
      ]
  delete_at-IsSound marker (some (special m)) e own =
      elim (Result-cases (check_marker os out fault s p marker (special m) tx)) [
        | inr (x, c) ↦ rw c unchanged
        | inl (_, c) ↦ rw c unchanged
      ]

  -- `delete`, with or without a refusal of the kernel at any of its calls.
  pub delete-IsSound :
      (marker : Option String)
      → IsRestorable os (lstat tx.files p)
      → IsSound os tx (delete os out fault s p marker tx).1
  unfolding delete
  delete-IsSound marker own = elim (Result-cases (check_destination os s tx p)) [
    | inr (x, e) ↦ rw e unchanged
    | inl (_, e) ↦ rw e (delete_at-IsSound marker (lstat tx.files p) refl own)
  ]

module _ (os : Os) (out : Outside) (fault : Fault) (s : Scope) (p : FilePath) (tx : Transaction)
    (t : IsTree tx.files) where
  -- `write_bytes`, with a refusal of the kernel at any of its calls but a later `mkdir`.
  pub write_bytes-IsSound :
      (content : Bytes) (mode : Option ℕ)
      → IsClean fault
      → IsRestorable os (lstat tx.files p)
      → IsSound os tx (write_bytes os out fault s p content mode tx).1
  unfolding write_bytes
  write_bytes-IsSound content mode clean own = elim (Bool-cases (fails_stage fault)) [
    | inl e ↦ rw e (unchanged os out fault s p tx t)
    | inr e ↦
        let name = stage_name os out fault s p in
        let tx' : Transaction = record tx { staged = Dict.put tx.staged name content } in
        rw e (
          publish-IsSound os out fault s p tx' t name mode content clean
            (get-put_self tx.staged name content) own)
  ]
