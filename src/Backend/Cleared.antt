-- ===== src/Backend/Cleared.antt =====
-- What becomes of the receipt of the process backend, mihomoctl/lifecycle/process.py.
use mathlib.Core.Path.{subst}
use mihomo_userctl.Base.{
  ◌∙◌, ℕ, ◌≡◌, refl, ap, inl, inr, Bool, true, false, Option, none, some, List, [], ◌∷◌, ◌||◌, ok,
  raise, bind_ok, Bool-cases, arith,
}
use mihomo_userctl.Base.Dict
use mihomo_userctl.Base.Dict.{get-remove}
use mihomo_userctl.Files.{
  path_eq, Node, file, symlink, dir, special, Files, Os, lstat, exists, followed, is_symlink,
}
use mihomo_userctl.Trust.{Checked, require_private_dir, require_private_file}
use mihomo_userctl.Endpoints.{Endpoint}
use mihomo_userctl.Identity.{World, ProcessIdentity, alive}
use mihomo_userctl.Identity.Stop
use mihomo_userctl.Ports.{Net}
use mihomo_userctl.Backend.{Core, validate}
use mihomo_userctl.Credentials.{Refused}
use mihomo_userctl.Backend.Store.{
  Place, read_state, read_receipt, decoded, found, clear_state, unlink_at,
}
use mihomo_userctl.Backend.Lifecycle.{
  Site, Act, continue, on_watch, look, on_files, check, linger_second, report, forget, forget_if,
  stop_if_alive, drifted, unless_drifted, stop_recorded, stop,
}

pub continue_reached :
    {A B : Type 0} (p : Checked A × Site) (k : A → Act B) {b : B} {s' : Site}
    → continue p k ≡ (ok b, s')
    → (a : A) × (s1 : Site) × (p ≡ (ok a, s1)) × (k a s1 ≡ (ok b, s'))
continue_reached (ok a, s1) k h = (a, s1, refl, h)
continue_reached (raise e, s1) k h = absurd (cc (ap (λ p. p.0) h))

not_found : (b : Bool) (o : Option Node) → (followed b o || is_symlink o) ≡ false → o ≡ none
not_found b none h = refl
not_found b (some (file _ _)) h = cc
not_found true (some (symlink _ _)) h = cc
not_found false (some (symlink _ _)) h = cc
not_found b (some (dir _)) h = cc
not_found b (some (special _)) h = cc

module _ (os : Os) (core : Core) (place : Place) where
  missing :
      (fs : Files)
      → found os core place place.runtime_state fs ≡ false
      → lstat fs place.runtime_state ≡ none
  unfolding exists
  missing fs h = not_found (os.resolves fs place.runtime_state) (lstat fs place.runtime_state) h

  removed : (fs : Files) → lstat (Dict.remove fs place.runtime_state) place.runtime_state ≡ none
  unfolding lstat
  removed fs = rw get-remove (ground arith)

  no_receipt :
      (fs : Files) → read_receipt os core place fs ≡ ok none → lstat fs place.runtime_state ≡ none
  unfolding read_receipt
  no_receipt fs h = elim (Bool-cases (found os core place place.runtime_state fs)) [
    | inl e ↦
        let (_, _, h1) =
          bind_ok (require_private_file os fs place.runtime_state "runtime-state-untrusted") _
            (rw e at h) in
        let (read, _, h2) =
          bind_ok (validate core (decoded os core place (lstat fs place.runtime_state))) _ h1 in
        absurd (cc h2)
    | inr e ↦ missing fs e
  ]

  no_state :
      (fs : Files) → read_state os core place fs ≡ ok none → lstat fs place.runtime_state ≡ none
  unfolding read_state
  no_state fs h = elim (Bool-cases (found os core place place.state_root fs)) [
    | inl e ↦
        let (_, _, h1) =
          bind_ok (require_private_dir os fs place.state_root false "runtime-state-untrusted").0 _
            (rw e at h) in
        no_receipt fs h1
    | inr e ↦ no_receipt fs (rw e at h)
  ]

  unlink_at_ok :
      (f : Refused) (n : Option Node) (fs fs' : Files) (u : Unit)
      → lstat fs place.runtime_state ≡ n
      → unlink_at os core place f n fs ≡ (ok u, fs')
      → lstat fs' place.runtime_state ≡ none
  unlink_at_ok f none fs fs' u e h = rw (← ap (λ p. p.1) h) e
  unlink_at_ok f (some (dir _)) fs fs' u e h = absurd (cc (ap (λ p. p.0) h))
  unlink_at_ok f (some _) fs fs' u e h = elim (Bool-cases f.at_unlink) [
    | inl refused ↦ absurd (cc (ap (λ p. p.0) (rw refused at h)))
    | inr granted ↦
        subst (λ x. lstat x place.runtime_state ≡ none) (ap (λ p. p.1) (rw granted at h))
          (removed fs)
  ]

  module _ (w : World) (net : Net) (fuel : ℕ) (f : Refused) (surfaces : List Endpoint) where
    abbrev IsCleared : Site → Type 0
    IsCleared s = lstat s.files place.runtime_state ≡ none

    report_ok :
        (stopped : Bool) (r : Option (List Endpoint)) (b : Bool) (s s' : Site)
        → report w net os core place stopped r s ≡ (ok (some b), s')
        → IsCleared s
        → IsCleared s'
    report_ok stopped none b s s' h clear = subst IsCleared (ap (λ p. p.1) h) clear
    report_ok stopped (some []) b s s' h clear = subst IsCleared (ap (λ p. p.1) h) clear
    report_ok stopped (some (e ∷ es)) b s s' h clear = absurd (cc (ap (λ p. p.0) h))

    forget_ok :
        (stopped b : Bool) (s s' : Site)
        → forget w net os core place fuel f surfaces stopped s ≡ (ok (some b), s')
        → IsCleared s'
    unfolding forget clear_state
    forget_ok stopped b s s' h =
        let (u, s1, e1, h1) = continue_reached (on_files (clear_state os core place f) s) _ h in
        let (r, s2, e2, h2) =
          continue_reached (look (linger_second w net os core place fuel surfaces) s1)
            (report w net os core place stopped) h1 in
        let gone : IsCleared s1 =
          unlink_at_ok f (lstat s.files place.runtime_state) s.files s1.files u refl
            (ap (λ p. (p.0, p.1.files)) e1) in
        report_ok stopped r b s2 s' h2
          (subst (λ fs. lstat fs place.runtime_state ≡ none) (ap (λ p. p.1.files) e2) gone)

    forget_if_ok :
        (r : Option Bool) (b : Bool) (s s' : Site)
        → forget_if w net os core place fuel f surfaces r s ≡ (ok (some b), s')
        → IsCleared s'
    forget_if_ok none b s s' h = absurd (cc (ap (λ p. p.0) h))
    forget_if_ok (some stopped) b s s' h = forget_ok stopped b s s' h

    stop_if_alive_ok :
        (id : ProcessIdentity) (a b : Bool) (s s' : Site)
        → stop_if_alive w net os core place fuel f surfaces id a s ≡ (ok (some b), s')
        → IsCleared s'
    stop_if_alive_ok id false b s s' h = forget_ok false b s s' h
    stop_if_alive_ok id true b s s' h =
        let (r, s1, _, h1) =
          continue_reached (on_watch (Stop.stop w fuel id 10000 10000) s)
            (forget_if w net os core place fuel f surfaces) h in
        forget_if_ok r b s1 s' h1

    unless_drifted_ok :
        (id : ProcessIdentity) (d b : Bool) (s s' : Site)
        → unless_drifted w net os core place fuel f surfaces id d s ≡ (ok (some b), s')
        → IsCleared s'
    unless_drifted_ok id true b s s' h = absurd (cc (ap (λ p. p.0) h))
    unless_drifted_ok id false b s s' h =
        let (a, s1, _, h1) =
          continue_reached (look (alive w id) s)
            (stop_if_alive w net os core place fuel f surfaces id) h in
        stop_if_alive_ok id a b s1 s' h1

    -- Where `stop` answers, whether yes or no, no receipt is left.
    pub stop_clears :
        (b : Bool) (s s' : Site)
        → stop w net os core place fuel f surfaces s ≡ (ok (some b), s')
        → lstat s'.files place.runtime_state ≡ none
    unfolding stop stop_recorded
    stop_clears b s s' h =
        let (state, s1, e1, h1) =
          continue_reached (check (read_state os core place) s)
            (stop_recorded w net os core place fuel f surfaces) h in
        by_state state s1 e1 h1
      where
        by_state :
            (state : Option ProcessIdentity) (s1 : Site)
            → check (read_state os core place) s ≡ (ok state, s1)
            → stop_recorded w net os core place fuel f surfaces state s1 ≡ (ok (some b), s')
            → IsCleared s'
        by_state none s1 e1 h1 =
            subst IsCleared (ap (λ p. p.1) e1 ∙ ap (λ p. p.1) h1)
              (no_state s.files (ap (λ p. p.0) e1))
        by_state (some id) s1 e1 h1 =
            let (d, s2, _, h2) =
              continue_reached (look (drifted w net os core place fuel f surfaces id) s1)
                (unless_drifted w net os core place fuel f surfaces id) h1 in
            unless_drifted_ok id d b s2 s' h2
