-- ===== src/Backend/Lifecycle.antt =====
-- `running_identity`, `stop` and `status` of `ProcessBackend` in mihomoctl/lifecycle/process.py, and
-- `_terminate_child`.
use mihomo_userctl.Base.{
  ℕ, zero, suc, ◌+◌, Bool, true, false, not, Option, none, some, List, [], ◌∷◌, leb, if◌then◌else◌,
  ok, raise,
}
use mihomo_userctl.Errors.{Exception, raised, observed_state_error, state_error, other_error}
use mihomo_userctl.Files.{Files, Os}
use mihomo_userctl.Trust.{Checked}
use mihomo_userctl.Endpoints.{Endpoint}
use mihomo_userctl.Identity.{
  World, Look, onward, ProcessIdentity, answer, alive, exited, exists_any, mismatch,
}
use mihomo_userctl.Identity.Stop.{Watch}
use mihomo_userctl.Identity.Stop
use mihomo_userctl.Ports.{Net}
use mihomo_userctl.Ports.Wait.{is_empty, keep_unless, nap, owns_listener, port_occupied}
use mihomo_userctl.Backend.{Core}
use mihomo_userctl.Credentials.{Refused}
use mihomo_userctl.Backend.Store.{Place, read_state, clear_state}

-- The files, and the processes that the backend looks at and signals.
pub record Site : Type 0 where
  pub files : Files
  pub watch : Watch

abbrev pub Act : Type 0 → Type 0
Act A = Site → Checked A × Site

abbrev pub continue : {A B : Type 0} → Checked A × Site → (A → Act B) → Checked B × Site
continue (ok a, s) k = k a s
continue (raise e, s) k = (raise e, s)

infixl 5 ◌>>=◌ ◌>>◌
abbrev pub ◌>>=◌ : {A B : Type 0} → Act A → (A → Act B) → Act B
◌>>=◌ m k s = continue (m s) k

abbrev pub ◌>>◌ : {B : Type 0} → Act Unit → Act B → Act B
m >> k = m >>= λ _. k

abbrev pub pure : {A : Type 0} → A → Act A
pure a s = (ok a, s)

abbrev pub throw : {A : Type 0} → Exception → Act A
throw e s = (raise e, s)

abbrev pub on_watch : {A : Type 0} → Stop.Act A → Act A
on_watch m s = let (r, watch) = m s.watch in (r, record s { watch = watch })

abbrev pub look : {A : Type 0} → Look A → Act A
look m = on_watch (Stop.look m)

abbrev pub on_files : {A : Type 0} → (Files → Checked A × Files) → Act A
on_files f s = let (r, fs) = f s.files in (r, record s { files = fs })

abbrev pub check : {A : Type 0} → (Files → Checked A) → Act A
check f s = (f s.files, s)

abbrev pub reuse_suspected : Exception
reuse_suspected = raised observed_state_error "pid-reuse-suspected"

abbrev pub still_occupied : Exception
still_occupied = raised observed_state_error "stop-port-still-occupied"

pub data Status : Type 0 where
  no_state stale_state : Status
  crashed : ℕ → ℕ → Status
  running : ProcessIdentity → Bool → Status

module _ (w : World) (net : Net) (os : Os) (core : Core) (place : Place) where
  -- A process has the number and has not exited.
  abbrev pub unless_exited : ProcessIdentity → Bool → Look Bool
  unless_exited id false t = (ok false, t)
  unless_exited id true t = onward (exited w id.pid t) (λ x. answer (ok (not x)))

  unfoldable pub occupied_by_live : ProcessIdentity → Look Bool
  unfolding exists_any exited
  occupied_by_live id t = onward (exists_any w id.pid t) (unless_exited id)

  abbrev pub refuse_if : Bool → Act (Option ProcessIdentity)
  refuse_if true = throw reuse_suspected
  refuse_if false = pure none

  abbrev pub current : ProcessIdentity → Bool → Act (Option ProcessIdentity)
  current id true = pure (some id)
  current id false = do live ← look (occupied_by_live id); refuse_if live

  abbrev pub running_if : Option ProcessIdentity → Act (Option ProcessIdentity)
  running_if none = pure none
  running_if (some id) = do a ← look (alive w id); current id a

  unfoldable pub running_identity : Act (Option ProcessIdentity)
  unfolding read_state alive occupied_by_live
  running_identity = do state ← check (read_state os core place); running_if state

  unfoldable pub leftover : List Endpoint → Look (List Endpoint)
  unfolding port_occupied
  leftover [] t = (ok [], t)
  leftover (e ∷ es) t =
      onward (port_occupied w net e.address e.port t)
        (λ b u. onward (leftover es u) (λ rest. answer (ok (keep_unless w net (not b) e rest))))

  -- The wait for the listeners to go; `none` where the fuel ends.
  unfoldable pub linger : ℕ → ℕ → List Endpoint → Look (Option (List Endpoint))
  unfolding leftover
  linger zero deadline surfaces t = (ok none, t)
  linger (suc fuel) deadline surfaces t =
      let again = linger fuel deadline surfaces in
      onward (leftover surfaces t) (λ rest u.
        if is_empty rest
        then (ok (some []), u)
        else if leb deadline (w.monotonic u)
        then (ok (some rest), suc u)
        else onward (nap w net 20 (suc u)) (λ _. again))

  unfoldable pub linger_second : ℕ → List Endpoint → Look (Option (List Endpoint))
  unfolding linger
  linger_second fuel surfaces t = linger fuel (w.monotonic t + 1000) surfaces (suc t)

  abbrev pub report : Bool → Option (List Endpoint) → Act (Option Bool)
  report stopped none = pure none
  report stopped (some []) = pure (some stopped)
  report stopped (some (e ∷ es)) = throw still_occupied

  module _ (fuel : ℕ) (f : Refused) (surfaces : List Endpoint) where
    -- After the process has gone.
    unfoldable pub forget : Bool → Act (Option Bool)
    unfolding clear_state linger_second
    forget stopped = do
      on_files (clear_state os core place f)
      rest ← look (linger_second fuel surfaces)
      report stopped rest

    abbrev pub forget_if : Option Bool → Act (Option Bool)
    forget_if none = pure none
    forget_if (some stopped) = forget stopped

    abbrev pub stop_if_alive : ProcessIdentity → Bool → Act (Option Bool)
    stop_if_alive id false = forget false
    stop_if_alive id true = do r ← on_watch (Stop.stop w fuel id 10000 10000); forget_if r

    abbrev pub is_drifted : ProcessIdentity → Bool → Look Bool
    is_drifted id false t = (ok false, t)
    is_drifted id true t = onward (alive w id t) (λ a. answer (ok (not a)))

    unfoldable pub drifted : ProcessIdentity → Look Bool
    unfolding occupied_by_live alive
    drifted id t = onward (occupied_by_live id t) (is_drifted id)

    abbrev pub unless_drifted : ProcessIdentity → Bool → Act (Option Bool)
    unless_drifted id true = throw reuse_suspected
    unless_drifted id false = do a ← look (alive w id); stop_if_alive id a

    unfoldable pub stop_recorded : Option ProcessIdentity → Act (Option Bool)
    unfolding drifted alive forget Stop.stop
    stop_recorded none = pure (some false)
    stop_recorded (some id) = do d ← look (drifted id); unless_drifted id d

    -- `stop`, on whose default spans of ten seconds the backend relies
    unfoldable pub stop : Act (Option Bool)
    unfolding read_state stop_recorded
    stop = do state ← check (read_state os core place); stop_recorded state

  -- `all` over the surfaces, which ends at the first that the process does not own
  unfoldable pub owns_all : ProcessIdentity → List Endpoint → Look Bool
  unfolding owns_listener
  owns_all id [] t = (ok true, t)
  owns_all id (e ∷ es) t =
      let rest = owns_all id es in
      onward (owns_listener w net id e.address e.port t)
        (λ b. if b then rest else answer (ok false))

  abbrev pub status_alive : ProcessIdentity → List Endpoint → Bool → Look Status
  status_alive id surfaces false t = (ok stale_state, t)
  status_alive id surfaces true t =
      onward (owns_all id surfaces t) (λ b. answer (ok (running id b)))

  abbrev pub status_live : ProcessIdentity → List Endpoint → Bool → Look Status
  status_live id surfaces true t = (ok (crashed id.pid id.start_time), t)
  status_live id surfaces false t = onward (alive w id t) (status_alive id surfaces)

  unfoldable pub status_of : List Endpoint → Option ProcessIdentity → Look Status
  unfolding exited alive owns_all
  status_of surfaces none t = (ok no_state, t)
  status_of surfaces (some id) t = onward (exited w id.pid t) (status_live id surfaces)

  unfoldable pub status : List Endpoint → Act Status
  unfolding read_state status_of
  status surfaces = do state ← check (read_state os core place); look (status_of surfaces state)

  -- The end of `_terminate_child`, `process.wait`, which the child may outlast.
  abbrev pub wait_child : Bool → Option Bool → Stop.Act (Option Unit)
  wait_child ends none = Stop.pure none
  wait_child true (some _) = Stop.pure (some tt)
  wait_child false (some _) = Stop.throw other_error

  abbrev pub unless_live : Bool → Stop.Act (Option Bool)
  unless_live true = Stop.pure (some false)
  unless_live false = Stop.throw mismatch

  abbrev pub stop_child : ℕ → ProcessIdentity → Bool → Stop.Act (Option Bool)
  stop_child fuel id true = Stop.stop w fuel id 10000 10000
  stop_child fuel id false = Stop.◌>>=◌ (Stop.look (exited w id.pid)) unless_live

  -- `_terminate_child`, by what `process.poll()` finds and whether `process.wait` sees the end.
  unfoldable pub terminate_child : ℕ → Bool → Bool → Option ProcessIdentity → Stop.Act (Option Unit)
  unfolding alive exited Stop.stop
  terminate_child fuel true ends identity = Stop.pure (some tt)
  terminate_child fuel false ends none =
      Stop.throw (raised state_error "process-identity-unverified")
  terminate_child fuel false ends (some id) =
      Stop.◌>>=◌ (Stop.look (alive w id)) (λ a. Stop.◌>>=◌ (stop_child fuel id a) (wait_child ends))
