-- ===== src/Identity/Target.antt =====
-- Which processes the signals of mihomoctl/identity.py reach.
use mathlib.Core.List.{append_assoc}
use mihomo_userctl.Base.{
  ℕ, zero, suc, ◌+◌, ◌≤◌, ◌≡◌, refl, inl, inr, Bool, true, false, Option, none, some, List, [], ◌∷◌,
  ◌++◌, nat_eq, if◌then◌else◌, length, length-append, All, All-append, Bool-cases, ltb, ok, raise,
  arith,
}
use mihomo_userctl.Trust.{Checked}
use mihomo_userctl.Identity.{World, Look, ProcessIdentity, alive, exists_any, mismatch}
use mihomo_userctl.Identity.Seen.{IsSeen, IsShown, alive_ok}
use mihomo_userctl.Identity.Stop.{
  SignalKind, sigterm, sigkill, Delivery, Watch, Act, continue, ◌>>=◌, ◌>>◌, look, pure, throw,
  opened, deliver, nobody, is_process, send, signal_by, signal, clock, nap, poll, round, verdict,
  wait_for, kill_last, wait, finish, signal_and_wait, after_kill, after_term, terminate, stop,
}

-- A process that has lost its number does not get it again.
abbrev pub IsKernel : World → Type 0
IsKernel w =
    (pid i u v x : ℕ)
    → u ≤ v
    → v ≤ x
    → w.occupant u pid ≡ some i
    → w.occupant x pid ≡ some i
    → w.occupant v pid ≡ some i

module _ (w : World) (id : ProcessIdentity) where
  -- The process was seen with the identity.
  abbrev pub IsOurs : Delivery → Type 0
  IsOurs d = (t : ℕ) × IsSeen w id t d.process

  -- At most `n` signals more were sent, to processes that were seen with the identity.
  pub record Sends (n : ℕ) (s s' : Watch) : Type 0 where
    pub fresh : List Delivery
    pub adds : s'.sent ≡ fresh ++ s.sent
    pub few : length fresh ≤ n
    pub ours : All IsOurs fresh

  abbrev pub Emits : {A : Type 0} → ℕ → Act A → Type 0
  Emits n m = (s : Watch) → Sends n s (m s).1

  pub silent : (n : ℕ) (s s' : Watch) → s'.sent ≡ s.sent → Sends n s s'
  silent n s s' h = record { fresh = []; adds = h; few = omega arith; ours = tt }

  pub Sends-trans :
      (a b : ℕ) (s s' s'' : Watch) → Sends a s s' → Sends b s' s'' → Sends (a + b) s s''
  Sends-trans a b s s' s'' first second = record {
    fresh = second.fresh ++ first.fresh;
    adds = rw (second.adds, first.adds, append_assoc) refl;
    few = rw (length-append second.fresh first.fresh) (omega arith);
    ours = All-append IsOurs second.fresh first.fresh second.ours first.ours;
  }

  pub Sends-weaken : (a b : ℕ) (s s' : Watch) → Sends a s s' → a ≤ b → Sends b s s'
  Sends-weaken a b s s' h le = record {
    fresh = h.fresh;
    adds = h.adds;
    few = omega arith;
    ours = h.ours;
  }

  bind-Emits :
      {A B : Type 0} (a b n : ℕ) (m : Act A) (k : A → Act B)
      → a + b ≤ n
      → Emits a m
      → ((x : A) → Emits b (k x))
      → Emits n (m >>= k)
  bind-Emits {A} {B} a b n m k le first next s = by_result (m s) (first s)
    where
      by_result : (p : Checked A × Watch) → Sends a s p.1 → Sends n s (continue p k).1
      by_result (ok x, s') h =
          Sends-weaken (a + b) n s (k x s').1 (Sends-trans a b s s' (k x s').1 h (next x s')) le
      by_result (raise e, s') h = Sends-weaken a n s s' h (omega arith)

  look-Emits : {A : Type 0} (n : ℕ) (m : Look A) → Emits n (look m)
  look-Emits n m s = silent n s (look m s).1 refl

  one : (d : Delivery) (s s' : Watch) → s'.sent ≡ d ∷ s.sent → IsOurs d → Sends 1 s s'
  one d s s' h ours = record { fresh = d ∷ []; adds = h; few = omega arith; ours = (ours, tt) }

  deliver-Sends :
      (kind : SignalKind) (i : ℕ) (b : Bool) (s : Watch)
      → IsOurs (record { kind = kind; process = i })
      → Sends 1 s (deliver w kind i b s).1
  deliver-Sends kind i true s ours = one _ s (deliver w kind i true s).1 refl ours
  deliver-Sends kind i false s ours = silent 1 s (deliver w kind i false s).1 refl

  -- A process that has the number from before the reading until after it is the one that is shown.
  shown-IsSeen :
      (t i : ℕ)
      → ((v : ℕ) → t ≤ v → v ≤ t + 4 → w.occupant v id.pid ≡ some i)
      → IsShown w id t
      → IsSeen w id t i
  shown-IsSeen t i stays seen =
      let now = stays t (omega arith) (omega arith) in
      let at_uid = stays (suc t) (omega arith) (omega arith) in
      let at_exe = stays (suc (suc t)) (omega arith) (omega arith) in
      let at_config = stays (suc (suc (suc t))) (omega arith) (omega arith) in
      let start_time = seen.start_time in
      let uid = seen.uid in
      let exe = seen.exe in
      let config = seen.config in
      record {
        start_time = rw now at start_time;
        uid = rw at_uid at uid;
        exe = rw at_exe at exe;
        config = rw at_config at config;
      }

  is_process_ok : (i : ℕ) (o : Option ℕ) → is_process w i o ≡ true → o ≡ some i
  is_process_ok i none h = cc
  is_process_ok i (some j) h = ground arith

  module _ (kernel : IsKernel w) where
    -- The descriptor was opened before the reading, and the signal is sent after it.
    send-Sends :
        (kind : SignalKind) (i t0 t : ℕ) (s : Watch)
        → w.occupant t0 id.pid ≡ some i
        → t0 ≤ t
        → t + 4 ≤ s.tick
        → IsShown w id t
        → Sends 1 s (send w kind id.pid i s).1
    unfolding send
    send-Sends kind i t0 t s open_at before after seen =
        elim (Bool-cases (is_process w i (w.occupant s.tick id.pid))) [
          | inl e ↦
              let same = is_process_ok i (w.occupant s.tick id.pid) e in
              let ours =
                shown-IsSeen t i
                  (λ v low high.
                    kernel id.pid i t0 v s.tick (omega arith) (omega arith) open_at same)
                  seen in
              rw e (deliver-Sends kind i (w.may_signal s.tick) s (t, ours))
          | inr e ↦ rw e (silent 1 s (nobody w s).1 refl)
        ]

    by_answer :
        (kind : SignalKind) (i t0 : ℕ) (s : Watch)
        → w.occupant t0 id.pid ≡ some i
        → t0 ≤ s.tick
        → (r : Checked Bool) (t : ℕ) → alive w id s.tick ≡ (r, t)
        → Sends 1 s
            (continue
              (r, record s { tick = t })
              (λ a. if a then send w kind id.pid i else throw mismatch)).1
    by_answer kind i t0 s open_at before (ok true) t e =
        let (seen, after, _) = alive_ok w id s.tick t e in
        let there = record s { tick = t } in
        let sends = send-Sends kind i t0 s.tick there open_at before after seen in
        record { fresh = sends.fresh; adds = sends.adds; few = sends.few; ours = sends.ours }
    by_answer kind i t0 s open_at before (ok false) t e = silent 1 s (record s { tick = t }) refl
    by_answer kind i t0 s open_at before (raise _) t e = silent 1 s (record s { tick = t }) refl

    signal_by-Sends :
        (kind : SignalKind) (t0 : ℕ) (may : Bool) (o : Option ℕ) (s : Watch)
        → w.occupant t0 id.pid ≡ o
        → t0 ≤ s.tick
        → Sends 1 s (signal_by w id kind (opened w may o) s).1
    signal_by-Sends kind t0 may none s open_at before = silent 1 s s refl
    signal_by-Sends kind t0 false (some i) s open_at before = silent 1 s s refl
    signal_by-Sends kind t0 true (some i) s open_at before =
        by_answer kind i t0 s open_at before (alive w id s.tick).0 (alive w id s.tick).1 refl

    signal-Emits : w.has_pidfd ≡ true → (kind : SignalKind) → Emits 1 (signal w id kind)
    unfolding signal
    signal-Emits has kind s =
        let there = record s { tick = suc s.tick } in
        let sends =
          signal_by-Sends kind s.tick (w.may_open s.tick) (w.occupant s.tick id.pid) there refl
            (omega arith) in
        simp has
          (record { fresh = sends.fresh; adds = sends.adds; few = sends.few; ours = sends.ours })

    look_then :
        {A B : Type 0} (n : ℕ) (m : Look A) (k : A → Act B)
        → ((a : A) → Emits n (k a))
        → Emits n (look m >>= k)
    look_then n m k next = bind-Emits 0 n n (look m) k (omega arith) (look-Emits 0 m) next

    if-Emits :
        {A : Type 0} (n : ℕ) (b : Bool) (m k : Act A)
        → Emits n m
        → Emits n k
        → Emits n (if b then m else k)
    if-Emits n true m k first second = first
    if-Emits n false m k first second = second

    abbrev Out : Type 0
    Out = Option Bool

    pure-Emits : (n : ℕ) (r : Out) → Emits n (pure r)
    pure-Emits n r s = silent n s s refl

    wait-Emits : (fuel deadline : ℕ) → Emits 0 (wait w fuel deadline id)
    unfolding wait
    wait-Emits zero deadline = pure-Emits 0 none
    wait-Emits (suc fuel) deadline =
        let again = wait w fuel deadline id in
        let next = wait-Emits fuel deadline in
        look_then 0 (clock w) (round w deadline id again) (λ now.
          if-Emits 0 (ltb now deadline) (poll w id again) (pure (some false))
            (look_then 0 (alive w id)
              (λ a. if a then (do look (nap w); again) else pure (some true))
              (λ a.
                if-Emits 0 a (do look (nap w); again) (pure (some true))
                  (look_then 0 (nap w) (λ _. again) (λ _. next)) (pure-Emits 0 (some true))))
            (pure-Emits 0 (some false)))

    finish-Emits : Emits 0 (finish w id)
    unfolding finish
    finish-Emits = look_then 0 (exists_any w id.pid) (verdict w) by_present
      where
        by_present : (e : Bool) → Emits 0 (verdict w e)
        by_present true s = silent 0 s s refl
        by_present false s = silent 0 s s refl

    module _ (has : w.has_pidfd ≡ true) where
      signal_and_wait-Emits :
          (fuel : ℕ) (kind : SignalKind) (span : ℕ) → Emits 1 (signal_and_wait w fuel id kind span)
      unfolding signal_and_wait
      signal_and_wait-Emits fuel kind span =
          bind-Emits 1 0 1 (signal w id kind) (λ _. wait_for w fuel id span) (omega arith)
            (signal-Emits has kind)
            (λ _.
              look_then 0 (clock w) (λ now. wait w fuel (now + span) id)
                (λ now. wait-Emits fuel (now + span)))

      after_kill-Emits : (r : Out) → Emits 0 (after_kill w id r)
      after_kill-Emits none = pure-Emits 0 none
      after_kill-Emits (some true) = pure-Emits 0 (some true)
      after_kill-Emits (some false) = finish-Emits

      after_term-Emits : (fuel span : ℕ) (r : Out) → Emits 1 (after_term w fuel id span r)
      after_term-Emits fuel span none = pure-Emits 1 none
      after_term-Emits fuel span (some true) = pure-Emits 1 (some true)
      after_term-Emits fuel span (some false) =
          look_then 1 (alive w id) (λ a. if a then kill_last w fuel id span else finish w id)
            (λ a.
              if-Emits 1 a (kill_last w fuel id span) (finish w id)
                (bind-Emits 1 0 1 (signal_and_wait w fuel id sigkill span) (after_kill w id)
                  (omega arith) (signal_and_wait-Emits fuel sigkill span) after_kill-Emits)
                (λ s. Sends-weaken 0 1 s (finish w id s).1 (finish-Emits s) (omega arith)))

      stop-Emits : (fuel term_span kill_span : ℕ) → Emits 2 (stop w fuel id term_span kill_span)
      unfolding stop
      stop-Emits fuel term_span kill_span =
          look_then 2 (alive w id)
            (λ a. if a then terminate w fuel id term_span kill_span else pure (some false))
            (λ a.
              if-Emits 2 a (terminate w fuel id term_span kill_span) (pure (some false))
                (bind-Emits 1 1 2 (signal_and_wait w fuel id sigterm term_span)
                  (after_term w fuel id kill_span) (omega arith)
                  (signal_and_wait-Emits fuel sigterm term_span) (after_term-Emits fuel kill_span))
                (pure-Emits 2 (some false)))

      -- However the world changes between the calls, and however `stop` ends, each signal that it sends
      -- reaches a process that was seen under the number with the recorded start time, user,
      -- executable and configuration, and at most two are sent. This needs the calls on process
      -- descriptors, and that a process that has lost its number does not get it again.
      pub stop-Sends :
          (fuel term_span kill_span : ℕ) (s : Watch)
          → Sends 2 s (stop w fuel id term_span kill_span s).1
      stop-Sends = stop-Emits
