-- ===== src/Identity/Bound.antt =====
-- That `stop` of mihomoctl/identity.py ends, and what its answers mean.
use mathlib.Core.Path.{subst}
use mihomo_userctl.Base.{
  ℕ, zero, suc, ◌+◌, ◌*◌, ◌≤◌, ◌≡◌, ◌⊎◌, refl, ap, inl, inr, Bool, true, false, Option, none, some,
  if◌then◌else◌, Bool-cases, ltb, ltb→lt, leb, ok, raise, arith,
}
use mihomo_userctl.Trust.{Checked}
use mihomo_userctl.Identity.{
  World, Look, ProcessIdentity, onward, read, start_of, uid_of, exe_of, config_of, read_facts,
  read_twice, read_identity, alive, exists_any, present,
}
use mihomo_userctl.Identity.Stop.{
  SignalKind, sigterm, sigkill, Watch, Act, continue, ◌>>=◌, ◌>>◌, look, pure, nap, verdict,
  wait_for, kill_last, signal, wait, finish, signal_and_wait, after_kill, after_term, terminate,
  stop,
}

-- The clock never goes back, and a sleep takes its time.
pub record IsClock (w : World) : Type 0 where
  pub forward : (t u : ℕ) → t ≤ u → w.monotonic t ≤ w.monotonic u
  pub slept : (span t : ℕ) → w.monotonic t + span ≤ w.monotonic (w.nap span t)
  pub later : (span t : ℕ) → t ≤ w.nap span t

module _ (w : World) (id : ProcessIdentity) where
  pub onward_later :
      {A B : Type 0} (t : ℕ) (p : Checked A × ℕ) (k : A → Look B)
      → t ≤ p.1
      → ((a : A) (u : ℕ) → u ≤ (k a u).1)
      → t ≤ (onward p k).1
  onward_later t (ok a, u) k le next = let step = next a u in omega arith
  onward_later t (raise e, u) k le next = le

  read_facts_later : (pid t : ℕ) → t ≤ (read_facts w pid t).1
  unfolding read_facts
  read_facts_later pid t =
      onward_later t (read w (start_of w.int_of) w.stat pid t) _ (omega arith) (λ start_time t1.
        onward_later t1 (read w (uid_of w.int_of) w.status pid t1) _ (omega arith) (λ uid t2.
          onward_later t2 (read w exe_of w.exe pid t2) _ (omega arith) (λ exe t3.
            onward_later t3 (read w config_of w.cmdline pid t3) _ (omega arith)
              (λ config t4. omega arith))))

  read_twice_later : (pid t : ℕ) → t ≤ (read_twice w pid none t).1
  unfolding read_twice
  read_twice_later pid t = onward_later t (read_facts w pid t) _ (read_facts_later pid t) (λ a t1.
      onward_later t1 (read_facts w pid t1) _ (read_facts_later pid t1) (λ b t2. omega arith))

  pub alive_later : (t : ℕ) → t ≤ (alive w id t).1
  unfolding alive read_identity
  alive_later t = elim (Bool-cases (leb id.pid 1)) [
    | inl e ↦ rw e (omega arith)
    | inr e ↦ rw e (read_twice_later id.pid t)
  ]

  abbrev Out : Type 0
  Out = Option Bool

  -- At some tick the identity was looked for and not found, or its number was free.
  abbrev pub IsGone : Type 0
  IsGone = ((t : ℕ) × ((alive w id t).0 ≡ ok false)) ⊎ ((t : ℕ) × (w.occupant t id.pid ≡ none))

  -- An answer of a loop: it has not run out of fuel.
  abbrev pub IsOver : Checked Out → Type 0
  IsOver (ok none) = ⊥
  IsOver (ok (some true)) = IsGone
  IsOver (ok (some false)) = Unit
  IsOver (raise e) = Unit

  -- The same, where a `no` would leave the process unnoticed.
  abbrev pub IsFinal : Checked Out → Type 0
  IsFinal (ok none) = ⊥
  IsFinal (ok (some true)) = IsGone
  IsFinal (ok (some false)) = ⊥
  IsFinal (raise e) = Unit

  module _ (P : Checked Out → Type 0) (raises : (e : _) → P (raise e)) where
    look_result :
        {A : Type 0} (m : Look A) (k : A → Act Out) (s : Watch)
        → ((a : A) (t : ℕ) → m s.tick ≡ (ok a, t) → P (k a (record s { tick = t })).0)
        → P ((look m >>= k) s).0
    look_result {A} m k s next = by_result (m s.tick).0 (m s.tick).1 refl
      where
        by_result :
            (r : Checked A) (t : ℕ)
            → m s.tick ≡ (r, t)
            → P (continue (r, record s { tick = t }) k).0
        by_result (ok a) t e = next a t e
        by_result (raise x) t e = raises x

    act_result :
        {A : Type 0} (m : Act A) (k : A → Act Out) (s : Watch)
        → ((a : A) (s' : Watch) → m s ≡ (ok a, s') → P (k a s').0)
        → P ((m >>= k) s).0
    act_result {A} m k s next = by_result (m s).0 (m s).1 refl
      where
        by_result : (r : Checked A) (s' : Watch) → m s ≡ (r, s') → P (continue (r, s') k).0
        by_result (ok a) s' e = next a s' e
        by_result (raise x) s' e = raises x

  IsOver-raises : (e : _) → IsOver (raise e)
  IsOver-raises e = tt

  not_alive : (t u : ℕ) → alive w id t ≡ (ok false, u) → IsGone
  not_alive t u e = inl (t, ap (λ p. p.0) e)

  -- What `stop` answers: it has sent nothing where it answers no.
  abbrev pub IsStopped : Watch → Checked Out × Watch → Type 0
  IsStopped s (ok none, s') = ⊥
  IsStopped s (ok (some true), s') = IsGone
  IsStopped s (ok (some false), s') = ((alive w id s.tick).0 ≡ ok false) × (s'.sent ≡ s.sent)
  IsStopped s (raise e, s') = Unit

  final-IsStopped : (s : Watch) (r : Checked Out) (s' : Watch) → IsFinal r → IsStopped s (r, s')
  final-IsStopped s (ok none) s' h = elim h [ ]
  final-IsStopped s (ok (some true)) s' h = h
  final-IsStopped s (ok (some false)) s' h = elim h [ ]
  final-IsStopped s (raise e) s' h = tt

  module _ (clocked : IsClock w) where
    -- A nap after a look moves the clock by 50 milliseconds.
    nap_moves :
        (start t : ℕ) (a : Bool)
        → alive w id (suc start) ≡ (ok a, t)
        → w.monotonic start + 50 ≤ w.monotonic (w.nap 50 t)
    nap_moves start t a e =
        let after = alive_later (suc start) in
        let same = ap (λ p. p.1) e in
        let moved = clocked.forward start t (omega arith) in
        let slept = clocked.slept 50 t in omega arith

    after_look :
        (rounds deadline : ℕ) (s : Watch)
        → deadline ≤ w.monotonic s.tick + 50 * suc rounds
        → ((s' : Watch)
            → deadline ≤ w.monotonic s'.tick + 50 * rounds
            → IsOver (wait w (suc rounds) deadline id s').0)
        → (a : Bool) (t : ℕ) → alive w id (suc s.tick) ≡ (ok a, t)
        → IsOver
            ((if a then (do look (nap w); wait w (suc rounds) deadline id) else pure (some true))
              (record s { tick = t })).0
    after_look rounds deadline s enough again true t e =
        let moved = nap_moves s.tick t true e in
        again (record s { tick = w.nap 50 t }) (omega arith)
    after_look rounds deadline s enough again false t e = not_alive (suc s.tick) t e

    -- A loop with time for at most `rounds` sleeps needs one unit of fuel more.
    wait-IsOver :
        (rounds deadline : ℕ) (s : Watch)
        → deadline ≤ w.monotonic s.tick + 50 * rounds
        → IsOver (wait w (suc rounds) deadline id s).0
    unfolding wait
    wait-IsOver zero deadline s enough = elim (Bool-cases (ltb (w.monotonic s.tick) deadline)) [
      | inl early ↦ let low = ltb→lt (w.monotonic s.tick) deadline early in absurd (omega arith)
      | inr late ↦ rw late tt
    ]
    wait-IsOver (suc rounds) deadline s enough =
        elim (Bool-cases (ltb (w.monotonic s.tick) deadline)) [
          | inl early ↦ rw early (
              look_result IsOver IsOver-raises (alive w id) _ (record s { tick = suc s.tick })
                (after_look rounds deadline s enough (wait-IsOver rounds deadline)))
          | inr late ↦ rw late tt
        ]

    IsFinal-raises : (e : _) → IsFinal (raise e)
    IsFinal-raises e = tt

    finish-IsFinal : (s : Watch) → IsFinal (finish w id s).0
    unfolding finish exists_any
    finish-IsFinal s = by_occupant (w.occupant s.tick id.pid) refl
      where
        by_occupant :
            (o : Option ℕ)
            → w.occupant s.tick id.pid ≡ o
            → IsFinal (verdict w (present w o) (record s { tick = suc s.tick })).0
        by_occupant none e = inr (s.tick, e)
        by_occupant (some i) e = tt

    module _ (rounds span : ℕ) (enough : span ≤ 50 * rounds) where
      signal_and_wait-IsOver :
          (kind : SignalKind) (s : Watch) → IsOver (signal_and_wait w (suc rounds) id kind span s).0
      unfolding signal_and_wait
      signal_and_wait-IsOver kind s =
          act_result IsOver IsOver-raises (signal w id kind) (λ _. wait_for w (suc rounds) id span)
            s
            (λ _ s' _.
              let forward = clocked.forward s'.tick (suc s'.tick) (omega arith) in
              wait-IsOver rounds (w.monotonic s'.tick + span) (record s' { tick = suc s'.tick })
                (omega arith))

      after_kill-IsFinal : (r : Out) (s : Watch) → IsOver (ok r) → IsFinal (after_kill w id r s).0
      after_kill-IsFinal none s gone = elim gone [ ]
      after_kill-IsFinal (some true) s gone = gone
      after_kill-IsFinal (some false) s _ = finish-IsFinal s

      kill_last-IsFinal : (s : Watch) → IsFinal (kill_last w (suc rounds) id span s).0
      kill_last-IsFinal s =
          act_result IsFinal IsFinal-raises (signal_and_wait w (suc rounds) id sigkill span)
            (after_kill w id) s
            (λ r s' e.
              after_kill-IsFinal r s'
                (subst IsOver (ap (λ p. p.0) e) (signal_and_wait-IsOver sigkill s)))

    module _ (rounds term_span kill_span : ℕ) (term_enough : term_span ≤ 50 * rounds)
        (kill_enough : kill_span ≤ 50 * rounds) where
      after_term-IsFinal :
          (r : Out) (s : Watch)
          → IsOver (ok r)
          → IsFinal (after_term w (suc rounds) id kill_span r s).0
      after_term-IsFinal none s gone = elim gone [ ]
      after_term-IsFinal (some true) s gone = gone
      after_term-IsFinal (some false) s _ =
          look_result IsFinal IsFinal-raises (alive w id) _ s
            (λ a t e. by_alive a (record s { tick = t }))
        where
          by_alive :
              (a : Bool) (s' : Watch)
              → IsFinal ((if a then kill_last w (suc rounds) id kill_span else finish w id) s').0
          by_alive true s' = kill_last-IsFinal rounds kill_span kill_enough s'
          by_alive false s' = finish-IsFinal s'

      terminate-IsFinal :
          (s : Watch) → IsFinal (terminate w (suc rounds) id term_span kill_span s).0
      terminate-IsFinal s =
          act_result IsFinal IsFinal-raises (signal_and_wait w (suc rounds) id sigterm term_span)
            (after_term w (suc rounds) id kill_span) s
            (λ r s' e. after_term-IsFinal r s' (
              subst IsOver (ap (λ p. p.0) e)
                (signal_and_wait-IsOver rounds term_span term_enough sigterm s)))

      -- `stop` ends: fuel for one round more than the sleeps that fit into the spans is enough on a
      -- clock that goes forward. Where it answers yes, the process was looked for and not found, or
      -- its number was free; where it answers no, the first look had not found the process, and no
      -- signal was sent.
      pub stop_ends : (s : Watch) → IsStopped s (stop w (suc rounds) id term_span kill_span s)
      unfolding stop
      stop_ends s = by_alive (alive w id s.tick).0 (alive w id s.tick).1 refl
        where
          by_alive :
              (r : Checked Bool) (t : ℕ)
              → alive w id s.tick ≡ (r, t)
              → IsStopped s (
                  continue
                    (r, record s { tick = t })
                    (λ a.
                      if a
                      then terminate w (suc rounds) id term_span kill_span
                      else pure (some false)))
          by_alive (ok true) t e =
              let there = record s { tick = t } in
              let ended = terminate w (suc rounds) id term_span kill_span there in
              final-IsStopped s ended.0 ended.1 (terminate-IsFinal there)
          by_alive (ok false) t e = (ap (λ p. p.0) e, refl)
          by_alive (raise x) t e = tt
