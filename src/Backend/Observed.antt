-- ===== src/Backend/Observed.antt =====
-- What the process backend, mihomoctl/lifecycle/process.py, has seen where it says that the core runs,
-- and what it does where another process has the number.
use mathlib.Core.Path.{subst}
use mihomo_userctl.Base.{
  ℕ, ◌≡◌, ap, Bool, true, false, Option, none, some, List, [], ◌∷◌, if◌then◌else◌, ok, All,
}
use mihomo_userctl.Files.{Os}
use mihomo_userctl.Endpoints.{Endpoint}
use mihomo_userctl.Identity.{World, answer, ProcessIdentity, alive, exited, exists_any}
use mihomo_userctl.Identity.Seen.{onward_reached, IsShown, alive_ok}
use mihomo_userctl.Ports.{Net}
use mihomo_userctl.Ports.Wait.{owns_listener}
use mihomo_userctl.Ports.Ready.{IsOwned, owns_listener_ok}
use mihomo_userctl.Backend.{Core}
use mihomo_userctl.Backend.Store.{Place, read_state}
use mihomo_userctl.Backend.Receipt.{IsReceipt}
use mihomo_userctl.Backend.Cleared.{continue_reached}
use mihomo_userctl.Backend.Held.{read_state-IsReceipt}
use mihomo_userctl.Backend.Lifecycle.{
  Site, check, look, running, owns_all, status_alive, status_live, status_of, status,
}

module _ (w : World) (net : Net) (os : Os) (core : Core) (place : Place) where
  -- The process with the number was seen with the identity from some tick on.
  abbrev pub IsAlive : ProcessIdentity → Type 0
  IsAlive id = (t : ℕ) × IsShown w id t

  seen_alive : (id : ProcessIdentity) (t u : ℕ) → alive w id t ≡ (ok true, u) → IsAlive id
  seen_alive id t u h = let (seen, _, _) = alive_ok w id t u h in (t, seen)

  module _ (id : ProcessIdentity) where
    abbrev pub IsOwnedBy : Endpoint → Type 0
    IsOwnedBy e = IsOwned w net id e.address e.port

    owns_all_ok :
        (es : List Endpoint) (t u : ℕ)
        → owns_all w net os core place id es t ≡ (ok true, u)
        → All IsOwnedBy es
    unfolding owns_all
    owns_all_ok [] t u h = tt
    owns_all_ok (e ∷ es) t u h =
        let (b, t1, e1, h1) = onward_reached (owns_listener w net id e.address e.port t) _ h in
        by_answer b t1 e1 h1 (owns_all_ok es t1 u)
      where
        by_answer :
            (b : Bool) (t1 : ℕ)
            → owns_listener w net id e.address e.port t ≡ (ok b, t1)
            → (if b then owns_all w net os core place id es else answer (ok false)) t1
              ≡ (ok true, u)
            → (owns_all w net os core place id es t1 ≡ (ok true, u) → All IsOwnedBy es)
            → IsOwnedBy e × All IsOwnedBy es
        by_answer true t1 e1 h1 rest = (owns_listener_ok w net id e.address e.port t t1 e1, rest h1)
        by_answer false t1 e1 h1 rest = absurd (cc (ap (λ p. p.0) h1))

  -- What an answer that the core runs and listens rests on.
  pub record IsRunning (id : ProcessIdentity) (es : List Endpoint) : Type 0 where
    pub there : IsAlive id
    pub listens : All (IsOwnedBy id) es

  status_alive_ok :
      (found id : ProcessIdentity) (es : List Endpoint) (a : Bool) (t0 t u : ℕ)
      → alive w found t0 ≡ (ok a, t)
      → status_alive w net os core place found es a t ≡ (ok (running id true), u)
      → (found ≡ id) × IsRunning found es
  status_alive_ok found id es false t0 t u e h = absurd (cc (ap (λ p. p.0) h))
  status_alive_ok found id es true t0 t u e h =
      let (b, t1, e1, h1) = onward_reached (owns_all w net os core place found es t) _ h in
      let same : found ≡ id = cc (ap (λ p. p.0) h1) in
      let owned : b ≡ true = cc (ap (λ p. p.0) h1) in
      (
        same,
        record {
          there = seen_alive found t0 t e;
          listens = owns_all_ok found es t t1 (rw owned at e1);
        },
      )

  status_live_ok :
      (found id : ProcessIdentity) (es : List Endpoint) (x : Bool) (t u : ℕ)
      → status_live w net os core place found es x t ≡ (ok (running id true), u)
      → (found ≡ id) × IsRunning found es
  status_live_ok found id es true t u h = absurd (cc (ap (λ p. p.0) h))
  status_live_ok found id es false t u h =
      let (a, t1, e1, h1) =
        onward_reached (alive w found t) (status_alive w net os core place found es) h in
      status_alive_ok found id es a t t1 u e1 h1

  status_of_ok :
      (found id : ProcessIdentity) (es : List Endpoint) (t u : ℕ)
      → status_of w net os core place es (some found) t ≡ (ok (running id true), u)
      → (found ≡ id) × IsRunning found es
  unfolding status_of
  status_of_ok found id es t u h =
      let (x, t1, _, h1) =
        onward_reached (exited w found.pid t) (status_live w net os core place found es) h in
      status_live_ok found id es x t1 u h1

  as_identity :
      (found id : ProcessIdentity) (es : List Endpoint)
      → IsReceipt core found
      → (found ≡ id) × IsRunning found es
      → IsReceipt core id × IsRunning id es
  as_identity found id es receipt (same, run) =
      (subst (λ i. IsReceipt core i) same receipt, subst (λ i. IsRunning i es) same run)

  -- Where `status` says that the core runs and listens, its receipt is one of the acting user for the
  -- selected core and configuration, the process was seen with that identity, and each surface was
  -- seen to be listened at by sockets of the user that the process held.
  pub status_running :
      (es : List Endpoint) (id : ProcessIdentity) (s s' : Site)
      → status w net os core place es s ≡ (ok (running id true), s')
      → IsReceipt core id × IsRunning id es
  unfolding status
  status_running es id s s' h =
      let (state, s1, e1, h1) =
        continue_reached (check (read_state os core place) s)
          (λ state. look (status_of w net os core place es state)) h in
      by_state state s1 (ap (λ p. p.0) e1) (ap (λ p. (p.0, p.1.watch.tick)) h1)
    where
      by_state :
          (state : Option ProcessIdentity) (s1 : Site)
          → read_state os core place s.files ≡ ok state
          → status_of w net os core place es state s1.watch.tick
            ≡ (ok (running id true), s'.watch.tick)
          → IsReceipt core id × IsRunning id es
      by_state none s1 e h = absurd (cc (ap (λ p. p.0) h))
      by_state (some found) s1 e h =
          as_identity found id es (read_state-IsReceipt os core place s.files found e)
            (status_of_ok found id es s1.watch.tick s'.watch.tick h)

  -- What `stop` sees of a number that a live process has which is not the recorded one: the number is
  -- there, its process has not exited, and it does not have the recorded identity.
  pub record IsTaken (id : ProcessIdentity) (t : ℕ) : Type 0 where
    pub seen : ℕ
    pub looked : ℕ
    pub ended : ℕ
    pub present : exists_any w id.pid t ≡ (ok true, seen)
    pub lives : exited w id.pid seen ≡ (ok false, looked)
    pub other : alive w id looked ≡ (ok false, ended)
