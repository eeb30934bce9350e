-- ===== src/Console/Settles.antt =====
-- The workers of mihomoctl/controller/controller_state.py answer every task, as long as the console is
-- open.
use mihomo_userctl.Base.{
  ℕ, suc, ◌+◌, ◌*◌, ◌≤◌, ◌<◌, ◌≡◌, refl, ap, ◌∙◌, inl, inr, String, true, false, Option, none, some,
  List, [], ◌∷◌, ◌||◌, nat_eq, length, length-append, ltb, get_elem?, Bool-cases, Option-cases,
  arith,
}
use mihomo_userctl.Console.{Job, max_jobs}
use mihomo_userctl.Console.Actions
use mihomo_userctl.Console.Actions.{Outcome, is_current}
use mihomo_userctl.Console.Schedule.{
  System, Act, take, settle, take_first, settle_job, step, run, new_system,
}
use mihomo_userctl.Console.Books.{pending_of, settle_ignored, settle_kept}
use mihomo_userctl.Console.Bounds.{console_bounds}
use mihomo_userctl.Console.Tasks.{has_task}
use mihomo_userctl.Console.Tracked.{IsTracked, settle-flags}
use mihomo_userctl.Console.Reached.{run-IsTracked, new_system-IsTracked}

lt→ltb : (a b : ℕ) → a < b → ltb a b ≡ true
lt→ltb a b h = ground arith

no_work :
    (js rs : List Job) (key : String) (r : ℕ)
    → 2 * length js + length rs ≤ 0
    → (has_task key r js || has_task key r rs) ≡ false
unfolding has_task
no_work [] [] key r le = refl
no_work (j ∷ js) rs key r le = ground (arith, le)
no_work [] (j ∷ rs) key r le = ground (arith, le)

rest_of : List Job → List Job
rest_of [] = []
rest_of (r ∷ rs) = rs

module _ {V : Type 0} where
  -- One worker after another ends the oldest task that runs, each with its outcome, and takes the next
  -- one of the queue.
  unfoldable pub rounds : List (Outcome V × ℕ) → List (Act V)
  rounds [] = []
  rounds ((outcome, now) ∷ rest) = settle 0 outcome now ∷ take ∷ rounds rest

  abbrev work : System V → ℕ
  work s = 2 * length s.store.jobs + length s.running

  record IsOpen (s : System V) : Type 0 where
    closed : s.store.closed ≡ false
    stopped : s.store.stopped ≡ false

  settle-jobs :
      (j : Job) (o : Outcome V) (now : ℕ) (s : System V)
      → (Actions.settle j o now s.store).jobs ≡ s.store.jobs
  settle-jobs j o now s = elim (Bool-cases (is_current s.store j)) [
    | inl e ↦ (settle_kept j o now s.store e).1
    | inr e ↦ ap (λ x. x.jobs) (settle_ignored j o now s.store e)
  ]

  -- What the end of the oldest running task leaves.
  record Shorter (js : List Job) (rs : List Job) (t : System V) : Type 0 where
    is_open : IsOpen t
    jobs : t.store.jobs ≡ js
    running : t.running ≡ rs

  settle_first :
      (rs : List Job) (o : Outcome V) (now : ℕ) (s : System V)
      → s.running ≡ rs
      → IsOpen s
      → Shorter s.store.jobs (rest_of rs) (settle_job 0 (get_elem? rs 0) o now s)
  unfolding rest_of
  settle_first [] o now s e h = record { is_open = h; jobs = refl; running = e }
  settle_first (r ∷ rs) o now s e h =
      let (closed, stopped) = settle-flags r o now s.store in
      record {
        is_open = record { closed = closed ∙ h.closed; stopped = stopped ∙ h.stopped };
        jobs = settle-jobs r o now s;
        running = rw e refl;
      }

  module _ (digest : List (Option String) → String) (workers : ℕ) (some_worker : 0 < workers) where
    IsOpen-take : (t : System V) → IsOpen t → IsOpen (step digest workers take t)
    unfolding step
    IsOpen-take t h = elim (Bool-cases (ltb (length t.running) workers)) [
      | inl f ↦ simp (h.stopped, f) (first t.store.jobs)
      | inr f ↦ simp (h.stopped, f) h
    ]
      where
        first : (js : List Job) → IsOpen (take_first js t)
        first [] = h
        first (j ∷ js) = record { closed = h.closed; stopped = h.stopped }

    work-take_first :
        (js : List Job) (t : System V)
        → t.store.jobs ≡ js
        → (work (take_first js t) ≤ work t)
          × (t.running ≡ [] → (n : ℕ) → work t ≤ suc n → work (take_first js t) ≤ n)
    work-take_first [] t e =
        let none_wait = ap length e in
        (omega arith, λ f n le. let none_run = ap length f in omega (arith, none_wait, none_run))
    work-take_first (j ∷ js) t e =
        let waiting = ap length e in
        let running = length-append t.running (j ∷ []) in
        (omega (arith, waiting, running), λ f n le. omega (arith, waiting, running, le))

    -- Taking a task is work done, and a worker without a task takes one.
    work-take :
        (t : System V)
        → IsOpen t
        → (work (step digest workers take t) ≤ work t)
          × (t.running ≡ [] → (n : ℕ) → work t ≤ suc n → work (step digest workers take t) ≤ n)
    unfolding step
    work-take t h = elim (Bool-cases (ltb (length t.running) workers)) [
      | inl f ↦ simp (h.stopped, f) (work-take_first t.store.jobs t refl)
      | inr f ↦
          simp (h.stopped, f)
            (
              omega arith,
              λ e n le. let room = lt→ltb (length t.running) workers (rw e some_worker) in cc,
            )
    ]

    -- A round does some of the work that there is.
    round_works :
        (o : Outcome V) (now : ℕ) (s : System V) (n : ℕ) (rs : List Job)
        → s.running ≡ rs
        → IsOpen s
        → work s ≤ suc n
        → work (step digest workers take (settle_job 0 (get_elem? rs 0) o now s)) ≤ n
    unfolding rest_of
    round_works o now s n [] e h le = (work-take s h).1 e n le
    round_works o now s n (r ∷ rs) e h le =
        let t = settle_job 0 (some r) o now s in
        let shorter = settle_first (r ∷ rs) o now s e h in
        let no_more = (work-take t shorter.is_open).0 in
        let before = ap length e in
        let jobs = ap length shorter.jobs in
        let running = ap length shorter.running in omega (arith, no_more, before, jobs, running, le)

    rounds-work :
        (os : List (Outcome V × ℕ)) (s : System V)
        → IsOpen s
        → work s ≤ length os
        → IsOpen (run digest workers (rounds os) s) × (work (run digest workers (rounds os) s) ≤ 0)
    unfolding run rounds step
    rounds-work [] s h le = (h, le)
    rounds-work ((o, now) ∷ os) s h le =
        let t = settle_job 0 (get_elem? s.running 0) o now s in
        let opened = (settle_first s.running o now s refl h).is_open in
        rounds-work os (step digest workers take t) (IsOpen-take t opened)
          (round_works o now s (length os) s.running refl h le)

    idle-settled :
        (s : System V) (key : String)
        → IsTracked s
        → IsOpen s
        → work s ≤ 0
        → pending_of s.store key ≡ none
    idle-settled s key tracked h le = elim (Option-cases (pending_of s.store key)) [
      | inl e ↦ e
      | inr (r, e) ↦
          let at_work = tracked.working key r h.closed e in
          let nothing = no_work s.store.jobs s.running key r le in cc
    ]

    -- With at least one worker, and as long as the console is not closed, no key is pending after as
    -- many rounds as twice the size of the queue and the number of workers, in each of which the oldest
    -- running task ends, with whatever outcome, and a worker takes the next one.
    pub tasks_settle :
        (acts : List (Act V)) (os : List (Outcome V × ℕ)) (key : String)
        → (run digest workers acts new_system).store.closed ≡ false
        → max_jobs + max_jobs + workers ≤ length os
        → pending_of (run digest workers (rounds os) (run digest workers acts new_system)).store key
          ≡ none
    tasks_settle acts os key not_closed enough =
        let s = run digest workers acts new_system in
        let small = console_bounds digest workers acts in
        let tracked = run-IsTracked digest workers acts new_system new_system-IsTracked in
        let is_open : IsOpen s = record {
          closed = not_closed;
          stopped = not_stopped s tracked not_closed;
        } in
        let (still_open, done) =
          rounds-work os s is_open (omega (arith, small.jobs, small.running, enough)) in
        idle-settled (run digest workers (rounds os) s) key
          (run-IsTracked digest workers (rounds os) s tracked) still_open done
      where
        not_stopped :
            (s : System V) → IsTracked s → s.store.closed ≡ false → s.store.stopped ≡ false
        not_stopped s tracked e = elim (Bool-cases s.store.stopped) [
          | inl f ↦ let closed = tracked.closing f in cc
          | inr f ↦ f
        ]
