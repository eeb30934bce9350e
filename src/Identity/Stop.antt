-- ===== src/Identity/Stop.antt =====
-- `_signal` and `stop` of mihomoctl/identity.py: signals to one process, and what was sent.
use mihomo_userctl.Base.{
  ℕ, zero, suc, Bool, true, false, Option, none, some, List, ◌∷◌, ◌==◌, ◌+◌, nat_eq, ltb,
  if◌then◌else◌, ok, raise,
}
use mihomo_userctl.Errors.{Exception, os_error, raised, state_error}
use mihomo_userctl.Trust.{Checked}
use mihomo_userctl.Identity.{World, Look, ProcessIdentity, alive, exists_any, mismatch}

pub data SignalKind : Type 0 where
  sigterm sigkill : SignalKind

-- A signal that reached a process.
pub record Delivery : Type 0 where
  pub kind : SignalKind
  pub process : ℕ

pub record Watch : Type 0 where
  pub tick : ℕ
  pub sent : List Delivery

abbrev pub Act : Type 0 → Type 0
Act A = Watch → Checked A × Watch

abbrev pub continue : {A B : Type 0} → Checked A × Watch → (A → Act B) → Checked B × Watch
continue (ok a, s) k = k a s
continue (raise e, s) k = (raise e, s)

infixl 5 ◌>>=◌ ◌>>◌
abbrev pub ◌>>=◌ : {A B : Type 0} → Act A → (A → Act B) → Act B
◌>>=◌ m k s = continue (m s) k

abbrev pub ◌>>◌ : {B : Type 0} → Act Unit → Act B → Act B
m >> k = m >>= λ _. k

abbrev pub pure : {A : Type 0} → A → Act A
pure a s = (ok a, s)

abbrev pub throw : {A : Type 0} → Exception → Act A
throw e s = (raise e, s)

-- Looking sends nothing.
abbrev pub look : {A : Type 0} → Look A → Act A
look m s = let (r, t) = m s.tick in (r, record s { tick = t })

-- What a call on a process gives: `ProcessLookupError`, another error of the kernel, or success.
pub data Called {ℓ} (A : Type ℓ) : Type ℓ where
  done : A → Called A
  no_process denied : Called A

module _ (w : World) where
  abbrev pub opened : Bool → Option ℕ → Called ℕ
  opened may none = no_process
  opened false (some i) = denied
  opened true (some i) = done i

  -- `os.pidfd_open`: a descriptor is of the process that has the number now.
  abbrev pub pidfd_open : ℕ → Act (Called ℕ)
  pidfd_open pid = look (λ t. (ok (opened (w.may_open t) (w.occupant t pid)), suc t))

  abbrev pub deliver : SignalKind → ℕ → Bool → Act Unit
  deliver kind i true s =
      (ok tt, record { tick = suc s.tick; sent = record { kind = kind; process = i } ∷ s.sent })
  deliver kind i false s = (raise os_error, record s { tick = suc s.tick })

  abbrev pub nobody : Act Unit
  nobody s = (ok tt, record s { tick = suc s.tick })

  abbrev pub is_process : ℕ → Option ℕ → Bool
  is_process i none = false
  is_process i (some j) = i == j

  -- `signal.pidfd_send_signal`, where `ProcessLookupError` is caught: it reaches the process of the
  -- descriptor as long as that has its number.
  unfoldable pub send : SignalKind → ℕ → ℕ → Act Unit
  send kind pid i s =
      if is_process i (w.occupant s.tick pid)
      then deliver kind i (w.may_signal s.tick) s
      else nobody s

  -- `os.kill`, which reaches whatever process has the number.
  abbrev kill_to : SignalKind → Option ℕ → Act Unit
  kill_to kind none s = nobody s
  kill_to kind (some i) s = deliver kind i (w.may_signal s.tick) s

  unfoldable pub kill : SignalKind → ℕ → Act Unit
  kill kind pid s = kill_to kind (w.occupant s.tick pid) s

  abbrev pub checked_then : ProcessIdentity → Act Unit → Act Unit
  checked_then id act = do a ← look (alive w id); if a then act else throw mismatch

  abbrev pub signal_by : ProcessIdentity → SignalKind → Called ℕ → Act Unit
  signal_by id kind (done i) = checked_then id (send kind id.pid i)
  signal_by id kind no_process = pure tt
  signal_by id kind denied = throw os_error

  -- `_signal`
  unfoldable pub signal : ProcessIdentity → SignalKind → Act Unit
  unfolding alive send kill
  signal id kind =
      if w.has_pidfd
      then (do c ← pidfd_open id.pid; signal_by id kind c)
      else checked_then id (kill kind id.pid)

  abbrev pub clock : Look ℕ
  clock t = (ok (w.monotonic t), suc t)

  abbrev pub nap : Look Unit
  nap t = (ok tt, w.nap 50 t)

  abbrev pub poll : ProcessIdentity → Act (Option Bool) → Act (Option Bool)
  poll id again = do a ← look (alive w id); if a then (do look nap; again) else pure (some true)

  abbrev pub round : ℕ → ProcessIdentity → Act (Option Bool) → ℕ → Act (Option Bool)
  round deadline id again now = if ltb now deadline then poll id again else pure (some false)

  -- The loops of `stop`: `some true` where the process is gone, `some false` at the deadline.
  unfoldable pub wait : ℕ → ℕ → ProcessIdentity → Act (Option Bool)
  unfolding alive
  wait zero deadline id = pure none
  wait (suc fuel) deadline id =
      let again = wait fuel deadline id in (do now ← look clock; round deadline id again now)

  abbrev pub verdict : Bool → Act (Option Bool)
  verdict e = if e then throw (raised state_error "stop-unverified") else pure (some true)

  unfoldable pub finish : ProcessIdentity → Act (Option Bool)
  unfolding exists_any
  finish id = do e ← look (exists_any w id.pid); verdict e

  abbrev pub wait_for : ℕ → ProcessIdentity → ℕ → Act (Option Bool)
  wait_for fuel id span = do now ← look clock; wait fuel (now + span) id

  -- A signal, and the wait for its effect.
  unfoldable pub signal_and_wait : ℕ → ProcessIdentity → SignalKind → ℕ → Act (Option Bool)
  unfolding signal wait
  signal_and_wait fuel id kind span = do signal id kind; wait_for fuel id span

  abbrev pub after_kill : ProcessIdentity → Option Bool → Act (Option Bool)
  after_kill id (some false) = finish id
  after_kill id r = pure r

  abbrev pub kill_last : ℕ → ProcessIdentity → ℕ → Act (Option Bool)
  kill_last fuel id span = do r ← signal_and_wait fuel id sigkill span; after_kill id r

  abbrev pub after_term : ℕ → ProcessIdentity → ℕ → Option Bool → Act (Option Bool)
  after_term fuel id span (some false) = do
    a ← look (alive w id)
    if a then kill_last fuel id span else finish id
  after_term fuel id span r = pure r

  abbrev pub terminate : ℕ → ProcessIdentity → ℕ → ℕ → Act (Option Bool)
  terminate fuel id term_span kill_span = do
    r ← signal_and_wait fuel id sigterm term_span
    after_term fuel id kill_span r

  -- `stop`, with its two spans in milliseconds; the outer option is `none` where the fuel ends.
  unfoldable pub stop : ℕ → ProcessIdentity → ℕ → ℕ → Act (Option Bool)
  unfolding signal_and_wait finish alive
  stop fuel id term_span kill_span = do
    a ← look (alive w id)
    if a then terminate fuel id term_span kill_span else pure (some false)
