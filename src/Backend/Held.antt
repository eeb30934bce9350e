-- ===== src/Backend/Held.antt =====
-- What `stop` of the process backend, mihomoctl/lifecycle/process.py, does to processes and files.
use mihomo_userctl.Base.{
  ℕ, ◌+◌, ◌≤◌, ◌≡◌, refl, inl, inr, Bool, true, false, Option, none, some, List, [], ◌∷◌, ok, raise,
  bind_ok, Bool-cases, arith,
}
use mihomo_userctl.Files.{path_eq, Files, Os, lstat}
use mihomo_userctl.Trust.{Checked, require_private_dir, require_private_file}
use mihomo_userctl.Endpoints.{Endpoint}
use mihomo_userctl.Identity.{World, Look, ProcessIdentity, alive}
use mihomo_userctl.Identity.Stop.{Watch}
use mihomo_userctl.Identity.Stop
use mihomo_userctl.Identity.Target.{IsKernel, Sends, silent, Sends-trans, Sends-weaken, stop-Sends}
use mihomo_userctl.Ports.{Net}
use mihomo_userctl.Backend.{Core, validate}
use mihomo_userctl.Credentials.{Refused}
use mihomo_userctl.Backend.Store.{Place, read_state, read_receipt, decoded, found, clear_state}
use mihomo_userctl.Backend.Receipt.{IsReceipt, validate-IsReceipt}
use mihomo_userctl.Backend.Lifecycle.{
  Site, Act, continue, ◌>>=◌, on_watch, look, on_files, linger_second, report, forget, forget_if,
  stop_if_alive, drifted, unless_drifted, stop_recorded, stop,
}

module _ (os : Os) (core : Core) (place : Place) where
  read_receipt-IsReceipt :
      (fs : Files) (id : ProcessIdentity)
      → read_receipt os core place fs ≡ ok (some id)
      → IsReceipt core id
  unfolding read_receipt
  read_receipt-IsReceipt fs id h = elim (Bool-cases (found os core place place.runtime_state fs)) [
    | inl e ↦
        let (_, _, h1) =
          bind_ok (require_private_file os fs place.runtime_state "runtime-state-untrusted") _
            (rw e at h) in
        let (read, valid, h2) =
          bind_ok (validate core (decoded os core place (lstat fs place.runtime_state))) _ h1 in
        let same : read ≡ id = cc in
        validate-IsReceipt core (decoded os core place (lstat fs place.runtime_state)) id
          (rw (← same) valid)
    | inr e ↦ absurd (cc (rw e at h))
  ]

  pub read_state-IsReceipt :
      (fs : Files) (id : ProcessIdentity)
      → read_state os core place fs ≡ ok (some id)
      → IsReceipt core id
  unfolding read_state
  read_state-IsReceipt fs id h = elim (Bool-cases (found os core place place.state_root fs)) [
    | inl e ↦
        let (_, _, h1) =
          bind_ok (require_private_dir os fs place.state_root false "runtime-state-untrusted").0 _
            (rw e at h) in
        read_receipt-IsReceipt fs id h1
    | inr e ↦ read_receipt-IsReceipt fs id (rw e at h)
  ]

  -- What `stop` may do, by what `read_state` gives.
  abbrev pub IsHeld : World → Checked (Option ProcessIdentity) → Site → Site → Type 0
  IsHeld w (ok (some id)) s s' = IsReceipt core id × Sends w id 2 s.watch s'.watch
  IsHeld w (ok none) s s' = s' ≡ s
  IsHeld w (raise e) s s' = s' ≡ s

  module _ (w : World) (net : Net) (kernel : IsKernel w) (has : w.has_pidfd ≡ true) (fuel : ℕ)
      (f : Refused) (surfaces : List Endpoint) where
    -- What an operation sends, on the way from one site to another.
    abbrev Within : ProcessIdentity → ℕ → Site → Site → Type 0
    Within id n s s' = Sends w id n s.watch s'.watch

    bind-Within :
        {A B : Type 0} (id : ProcessIdentity) (a b n : ℕ) (m : Act A) (k : A → Act B) (s : Site)
        → a + b ≤ n
        → Within id a s (m s).1
        → ((x : A) (s' : Site) → Within id b s' (k x s').1)
        → Within id n s ((m >>= k) s).1
    bind-Within {A} {B} id a b n m k s le first next = by_result (m s) first
      where
        by_result : (p : Checked A × Site) → Within id a s p.1 → Within id n s (continue p k).1
        by_result (ok x, s') h =
            Sends-weaken w id (a + b) n s.watch (k x s').1.watch
              (Sends-trans w id a b s.watch s'.watch (k x s').1.watch h (next x s')) le
        by_result (raise e, s') h = Sends-weaken w id a n s.watch s'.watch h (omega arith)

    look_next :
        {A B : Type 0} (id : ProcessIdentity) (n : ℕ) (m : Look A) (k : A → Act B)
        → ((x : A) (s' : Site) → Within id n s' (k x s').1)
        → (s : Site) → Within id n s ((look m >>= k) s).1
    look_next id n m k next s =
        bind-Within id 0 n n (look m) k s (omega arith)
          (silent w id 0 s.watch (look m s).1.watch refl) next

    report-Within :
        (id : ProcessIdentity) (stopped : Bool) (r : Option (List Endpoint)) (s : Site)
        → Within id 0 s (report w net os core place stopped r s).1
    report-Within id stopped none s = silent w id 0 s.watch s.watch refl
    report-Within id stopped (some []) s = silent w id 0 s.watch s.watch refl
    report-Within id stopped (some (e ∷ es)) s = silent w id 0 s.watch s.watch refl

    forget-Within :
        (id : ProcessIdentity) (stopped : Bool) (s : Site)
        → Within id 0 s (forget w net os core place fuel f surfaces stopped s).1
    unfolding forget
    forget-Within id stopped s =
        bind-Within id 0 0 0 (on_files (clear_state os core place f)) _ s (omega arith)
          (silent w id 0 s.watch s.watch refl)
          (λ _.
            look_next id 0 (linger_second w net os core place fuel surfaces)
              (report w net os core place stopped) (report-Within id stopped))

    forget_if-Within :
        (id : ProcessIdentity) (r : Option Bool) (s : Site)
        → Within id 0 s (forget_if w net os core place fuel f surfaces r s).1
    forget_if-Within id none s = silent w id 0 s.watch s.watch refl
    forget_if-Within id (some stopped) s = forget-Within id stopped s

    stop_if_alive-Within :
        (id : ProcessIdentity) (a : Bool) (s : Site)
        → Within id 2 s (stop_if_alive w net os core place fuel f surfaces id a s).1
    stop_if_alive-Within id false s =
        Sends-weaken w id 0 2 s.watch (forget w net os core place fuel f surfaces false s).1.watch
          (forget-Within id false s) (omega arith)
    stop_if_alive-Within id true s =
        bind-Within id 2 0 2 (on_watch (Stop.stop w fuel id 10000 10000))
          (forget_if w net os core place fuel f surfaces) s (omega arith)
          (stop-Sends w id kernel has fuel 10000 10000 s.watch) (forget_if-Within id)

    unless_drifted-Within :
        (id : ProcessIdentity) (d : Bool) (s : Site)
        → Within id 2 s (unless_drifted w net os core place fuel f surfaces id d s).1
    unless_drifted-Within id true s = silent w id 2 s.watch s.watch refl
    unless_drifted-Within id false s =
        look_next id 2 (alive w id) (stop_if_alive w net os core place fuel f surfaces id)
          (stop_if_alive-Within id) s

    stop_recorded-Within :
        (id : ProcessIdentity) (s : Site)
        → Within id 2 s (stop_recorded w net os core place fuel f surfaces (some id) s).1
    unfolding stop_recorded
    stop_recorded-Within id s =
        look_next id 2 (drifted w net os core place fuel f surfaces id)
          (unless_drifted w net os core place fuel f surfaces id) (unless_drifted-Within id) s

    -- With a receipt, `stop` sends at most two signals, each to a process that was seen with the
    -- recorded identity, which is one of the acting user, above number 1, with the selected core and
    -- configuration. With no receipt, or one that is refused, it changes nothing. This needs the calls
    -- on process descriptors, and that a process that has lost its number does not get it again.
    pub stop-IsHeld :
        (s : Site)
        → IsHeld w
            (read_state os core place s.files)
            s
            (stop w net os core place fuel f surfaces s).1
    unfolding stop stop_recorded
    stop-IsHeld s = by_state (read_state os core place s.files) refl
      where
        by_state :
            (r : Checked (Option ProcessIdentity))
            → read_state os core place s.files ≡ r
            → IsHeld w r s (continue (r, s) (stop_recorded w net os core place fuel f surfaces)).1
        by_state (ok none) e = refl
        by_state (ok (some id)) e = (read_state-IsReceipt s.files id e, stop_recorded-Within id s)
        by_state (raise x) e = refl
