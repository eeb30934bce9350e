-- ===== src/Credentials/Written.antt =====
-- What `write_atomic` of mihomoctl/credentials.py leaves where it returns.
use mathlib.Core.Path.{subst}
use mihomo_userctl.Base.{ℕ, ◌≡◌, ap, inl, inr, true, some, ◌||◌, ok, raise, Bool-cases}
use mihomo_userctl.Base.Dict
use mihomo_userctl.Base.Dict.{get-put_self}
use mihomo_userctl.Files.{FilePath, path_eq, Bytes, Node, file, Files, Os, lstat, is_dir, parent}
use mihomo_userctl.Trust.{Checked, require_private_dir}
use mihomo_userctl.Credentials.{Refused, replace_at, when_ok, write_atomic}

pub when_ok_ok :
    {A : Type 0} (r : Checked A) (fs fs' : Files) (next : Files → Checked Unit × Files)
    → when_ok (r, fs) next ≡ (ok tt, fs')
    → next fs ≡ (ok tt, fs')
when_ok_ok (ok a) fs fs' next h = h
when_ok_ok (raise e) fs fs' next h = absurd (cc (ap (λ p. p.0) h))

module _ (os : Os) (f : Refused) where
  abbrev pub IsWritten : Files → FilePath → Bytes → ℕ → Type 0
  IsWritten fs p b mode =
      lstat fs p ≡ some (file b (record { mode = mode; uid = os.uid; gid = os.gid }))

  written : (fs : Files) (p : FilePath) (n : Node) → lstat (Dict.put fs p n) p ≡ some n
  unfolding lstat
  written fs p n = get-put_self fs p n

  replace_at_ok :
      (p : FilePath) (b : Bytes) (mode : ℕ) (fs fs' : Files)
      → replace_at os f p b mode fs ≡ (ok tt, fs')
      → IsWritten fs' p b mode
  replace_at_ok p b mode fs fs' h =
      elim (Bool-cases (f.at_temp || f.at_replace || is_dir (lstat fs p))) [
        | inl e ↦ absurd (cc (ap (λ q. q.0) (rw e at h)))
        | inr e ↦ elim (Bool-cases f.at_sync) [
          | inl s ↦ absurd (cc (ap (λ q. q.0) (rw (e, s) at h)))
          | inr s ↦
              subst (λ x. IsWritten x p b mode) (ap (λ q. q.1) (rw (e, s) at h))
                (written fs p (file b (record { mode = mode; uid = os.uid; gid = os.gid })))
        ]
      ]

  pub write_atomic_ok :
      (p : FilePath) (b : Bytes) (mode : ℕ) (fs fs' : Files)
      → write_atomic os f p b mode fs ≡ (ok tt, fs')
      → IsWritten fs' p b mode
  unfolding write_atomic
  write_atomic_ok p b mode fs fs' h =
      let made = require_private_dir os fs (parent p) true "config-invalid" in
      replace_at_ok p b mode made.1 fs' (when_ok_ok made.0 made.1 fs' (replace_at os f p b mode) h)
