-- ===== src/Identity/Seen.antt =====
-- What `alive` of mihomoctl/identity.py has seen where it answers yes.
use mihomo_userctl.Base.{
  ℕ, suc, ◌+◌, ◌<◌, ◌≤◌, ◌≡◌, refl, sym, ap, inl, inr, true, none, leb, string_eq, nat_eq, ok,
  raise, ok_injective, Bool-cases, arith,
}
use mihomo_userctl.Errors.{app}
use mihomo_userctl.Trust.{Checked}
use mihomo_userctl.Identity.{
  World, Look, Facts, ProcessIdentity, onward, read, option_eq, same_facts, start_of, uid_of,
  exe_of, config_of, shown, read_facts, confirmed, read_twice, read_identity, same_process,
  is_state_error, alive_answer, alive,
}

onward_ok :
    {A B : Type 0} (r : Checked A) (t : ℕ) (k : A → Look B) {b : B} {u : ℕ}
    → onward (r, t) k ≡ (ok b, u)
    → (a : A) × (r ≡ ok a) × (k a t ≡ (ok b, u))
onward_ok (ok a) t k h = (a, refl, h)
onward_ok (raise e) t k h = absurd (cc (ap (λ p. p.0) h))

pub onward_reached :
    {A B : Type 0} (p : Checked A × ℕ) (k : A → Look B) {b : B} {u : ℕ}
    → onward p k ≡ (ok b, u)
    → (a : A) × (t : ℕ) × (p ≡ (ok a, t)) × (k a t ≡ (ok b, u))
onward_reached (ok a, t) k h = (a, t, refl, h)
onward_reached (raise e, t) k h = absurd (cc (ap (λ p. p.0) h))

module _ (w : World) where
  -- What the process shows at four ticks in a row is what the identity says.
  pub record IsSeen (id : ProcessIdentity) (t i : ℕ) : Type 0 where
    pub start_time : start_of w.int_of (w.stat t i) ≡ ok id.start_time
    pub uid : uid_of w.int_of (w.status (suc t) i) ≡ ok id.uid
    pub exe : exe_of (w.exe (suc (suc t)) i) ≡ ok id.exe
    pub config : config_of (w.cmdline (suc (suc (suc t))) i) ≡ ok id.config

  -- The same, of whatever process has the number at each of the ticks.
  pub record IsShown (id : ProcessIdentity) (t : ℕ) : Type 0 where
    pub start_time : start_of w.int_of (shown w w.stat t (w.occupant t id.pid)) ≡ ok id.start_time
    pub uid : uid_of w.int_of (shown w w.status (suc t) (w.occupant (suc t) id.pid)) ≡ ok id.uid
    pub exe : exe_of (shown w w.exe (suc (suc t)) (w.occupant (suc (suc t)) id.pid)) ≡ ok id.exe
    pub config :
        config_of (shown w w.cmdline (suc (suc (suc t))) (w.occupant (suc (suc (suc t))) id.pid))
        ≡ ok id.config

  abbrev pub identity_of : ℕ → Facts → ProcessIdentity
  identity_of pid f = record {
    pid = pid;
    uid = f.uid;
    start_time = f.start_time;
    exe = f.exe;
    config = f.config;
  }

  read_facts_ok :
      (pid t : ℕ) (f : Facts) (u : ℕ)
      → read_facts w pid t ≡ (ok f, u)
      → IsShown (identity_of pid f) t × (u ≡ suc (suc (suc (suc t))))
  unfolding read_facts
  read_facts_ok pid t f u h =
      let (start_time, e1, h1) =
        onward_ok (read w (start_of w.int_of) w.stat pid t).0 (suc t) _ h in
      let (uid, e2, h2) =
        onward_ok (read w (uid_of w.int_of) w.status pid (suc t)).0 (suc (suc t)) _ h1 in
      let (exe, e3, h3) =
        onward_ok (read w exe_of w.exe pid (suc (suc t))).0 (suc (suc (suc t))) _ h2 in
      let (config, e4, h4) =
        onward_ok (read w config_of w.cmdline pid (suc (suc (suc t)))).0 (suc (suc (suc (suc t)))) _
          h3 in
      rw (← ok_injective (ap (λ p. p.0) h4))
        (record { start_time = e1; uid = e2; exe = e3; config = e4 }, sym (ap (λ p. p.1) h4))

  confirmed_ok :
      (pid : ℕ) (a b : Facts) (id : ProcessIdentity)
      → confirmed w pid none a b ≡ ok id
      → id ≡ identity_of pid a
  confirmed_ok pid a b id h = elim (Bool-cases (same_facts a b)) [
    | inl e ↦ sym (ok_injective (rw e at h))
    | inr e ↦ absurd (cc (rw e at h))
  ]

  read_twice_ok :
      (pid t : ℕ) (id : ProcessIdentity) (u : ℕ)
      → read_twice w pid none t ≡ (ok id, u)
      → IsShown id t × (id.pid ≡ pid) × (t + 4 ≤ u)
  unfolding read_twice
  read_twice_ok pid t id u h =
      let (a, t1, e1, h1) = onward_reached (read_facts w pid t) _ h in
      let (b, t2, e2, h2) = onward_reached (read_facts w pid t1) _ h1 in
      let (shown_a, u1) = read_facts_ok pid t a t1 e1 in
      let (shown_b, u2) = read_facts_ok pid t1 b t2 e2 in
      let same : id ≡ identity_of pid a = confirmed_ok pid a b id (ap (λ p. p.0) h2) in
      let last : t2 ≡ u = ap (λ p. p.1) h2 in
      (rw same shown_a, ap (λ (i : ProcessIdentity). i.pid) same, omega arith)

  read_identity_ok :
      (pid t : ℕ) (id : ProcessIdentity) (u : ℕ)
      → read_identity w pid none t ≡ (ok id, u)
      → IsShown id t × (id.pid ≡ pid) × (t + 4 ≤ u) × (1 < pid)
  unfolding read_identity
  read_identity_ok pid t id u h = elim (Bool-cases (leb pid 1)) [
    | inl e ↦ absurd (cc (ap (λ p. p.0) (rw e at h)))
    | inr e ↦
        let (shown_id, same, later) = read_twice_ok pid t id u (rw e at h) in
        (shown_id, same, later, ground arith)
  ]

  same-IsShown :
      (current id : ProcessIdentity) (t : ℕ)
      → same_process w current id ≡ true
      → current.pid ≡ id.pid
      → IsShown current t
      → IsShown id t
  same-IsShown current id t h same seen =
      let uid : current.uid ≡ id.uid = ground arith in
      let start_time : current.start_time ≡ id.start_time = ground arith in
      let exe : current.exe ≡ id.exe = ground arith in
      let config : current.config ≡ id.config = ground arith in
      record {
        start_time = rw (← same, ← start_time) seen.start_time;
        uid = rw (← same, ← uid) seen.uid;
        exe = rw (← same, ← exe) seen.exe;
        config = rw (← same, ← config) seen.config;
      }

  -- What was read, and what `alive` answers.
  by_reading :
      (id : ProcessIdentity) (t : ℕ) (r : Checked ProcessIdentity) (u : ℕ)
      → read_identity w id.pid none t ≡ (r, u)
      → alive_answer w id r ≡ ok true
      → IsShown id t × (t + 4 ≤ u) × (1 < id.pid)
  by_reading id t (ok current) u e h =
      let (seen, same, later, small) = read_identity_ok id.pid t current u e in
      (same-IsShown current id t (ok_injective h) same seen, later, small)
  by_reading id t (raise (app e)) u _ h = elim (Bool-cases (is_state_error w e.class)) [
    | inl s ↦ absurd (cc (rw s at h))
    | inr s ↦ absurd (cc (rw s at h))
  ]
  by_reading id t (raise _) u _ h = cc

  -- An answer of `alive` is yes only where a reading just before it shows the identity.
  pub alive_ok :
      (id : ProcessIdentity) (t u : ℕ)
      → alive w id t ≡ (ok true, u)
      → IsShown id t × (t + 4 ≤ u) × (1 < id.pid)
  unfolding alive
  alive_ok id t u h =
      let (seen, later, small) =
        by_reading id t (read_identity w id.pid none t).0 (read_identity w id.pid none t).1 refl
          (ap (λ p. p.0) h) in
      (seen, rw (← ap (λ p. p.1) h) later, small)
