-- ===== src/Transaction/Exec.antt =====
-- Methods of a transaction: they may raise, and what they changed before that stays changed.
use mihomo_userctl.Base.{ok, raise}
use mihomo_userctl.Errors.{Exception}
use mihomo_userctl.Files.{Files}
use mihomo_userctl.Trust.{Checked}
use mihomo_userctl.Transaction.{Transaction}

abbrev pub Exec : Type 0 → Type 0
Exec A = Transaction → Checked A × Transaction

abbrev pub continue : {A B : Type 0} → Checked A → (A → Exec B) → Exec B
continue (ok a) k tx = k a tx
continue (raise e) k tx = (raise e, tx)

infixl 5 ◌>>=◌ ◌>>◌
abbrev pub ◌>>=◌ : {A B : Type 0} → Exec A → (A → Exec B) → Exec B
◌>>=◌ m k tx = let (r, tx') = m tx in continue r k tx'

abbrev pub ◌>>◌ : {B : Type 0} → Exec Unit → Exec B → Exec B
m >> k = m >>= λ _. k

abbrev pub pure : {A : Type 0} → A → Exec A
pure a tx = (ok a, tx)

abbrev pub throw : {A : Type 0} → Exception → Exec A
throw e tx = (raise e, tx)

abbrev pub gets : {A : Type 0} → (Transaction → A) → Exec A
gets f tx = (ok (f tx), tx)

abbrev pub modify : (Transaction → Transaction) → Exec Unit
modify f tx = (ok tt, f tx)

-- A check that looks at the transaction and changes nothing.
abbrev pub check : {A : Type 0} → (Transaction → Checked A) → Exec A
check f tx = (f tx, tx)

-- A system call that fails in some cases, on the managed files.
abbrev pub on_files : {A : Type 0} → (Files → Checked A × Files) → Exec A
on_files f tx = let (r, fs) = f tx.files in (r, record tx { files = fs })
