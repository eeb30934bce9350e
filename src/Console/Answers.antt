-- ===== src/Console/Answers.antt =====
-- The order in which the console of mihomoctl/controller/controller_state.py keeps the results of its
-- tasks.
use mihomo_userctl.Base.{
  ℕ, suc, ◌<◌, ◌≡◌, ◌≢◌, not, and_true, get_elem?, inl, inr, String, true, Option, none, some, List,
  [], ◌∷◌, is_some, nat_eq, Bool-cases, arith,
}
use mihomo_userctl.Console.Actions.{is_at, is_current, Outcome}
use mihomo_userctl.Console.Schedule.{Act, settle, step, run, new_system}
use mihomo_userctl.Console.Cells.{
  Cell, Request, idle, ask, refuse, reset, answer, fill, new_cell, cell, serve, serve_all,
}
use mihomo_userctl.Console.{Job}
use mihomo_userctl.Console.Books.{revision_of, pending_of, settle_ignored}
use mihomo_userctl.Console.Refined.{requests, console_refines}

-- All of a list are under a number.
unfoldable pub AllBelow : ℕ → List ℕ → Type 0
AllBelow n [] = Unit {0}
AllBelow n (a ∷ as_) = (a < n) × AllBelow n as_

unfoldable pub IsDecreasing : List ℕ → Type 0
unfolding AllBelow
IsDecreasing [] = Unit {0}
IsDecreasing (a ∷ as_) = AllBelow a as_ × IsDecreasing as_

AllBelow-suc : (n : ℕ) (xs : List ℕ) → AllBelow n xs → AllBelow (suc n) xs
unfolding AllBelow
AllBelow-suc n [] b = tt
AllBelow-suc n (x ∷ xs) (lt, b) = (omega (arith, lt), AllBelow-suc n xs b)

is_at-some : (o : Option ℕ) (r : ℕ) → is_at o r ≡ true → o ≡ some r
is_at-some none r h = cc
is_at-some (some m) r h = ground arith

module _ {V : Type 0} where
  -- The answers came in the order of their versions, none is newer than the version of the cell, and
  -- the awaited version is the cell's own and is newer than them all.
  pub record IsOrderly (c : Cell V) : Type 0 where
    pub decreasing : IsDecreasing c.answered
    pub past : AllBelow (suc c.version) c.answered
    pub awaited : (r : ℕ) → c.awaited ≡ some r → (c.version ≡ r) × AllBelow r c.answered

  serve-IsOrderly : (q : Request V) (c : Cell V) → IsOrderly c → IsOrderly (serve q c)
  unfolding serve IsDecreasing AllBelow
  serve-IsOrderly idle c h = h
  serve-IsOrderly ask c h = elim (Bool-cases (is_some c.awaited)) [
    | inl e ↦ rw e h
    | inr e ↦ simp e (record {
      decreasing = h.decreasing;
      past = AllBelow-suc (suc c.version) c.answered h.past;
      awaited = λ r same. let there : suc c.version ≡ r = cc in (there, rw (← there) h.past);
    })
  ]
  serve-IsOrderly refuse c h = elim (Bool-cases (is_some c.awaited)) [
    | inl e ↦ rw e h
    | inr e ↦ simp e (record {
      decreasing = h.decreasing;
      past = AllBelow-suc (suc c.version) c.answered h.past;
      awaited = λ r same. cc;
    })
  ]
  serve-IsOrderly reset c h = record {
    decreasing = h.decreasing;
    past = AllBelow-suc (suc c.version) c.answered h.past;
    awaited = λ r same. cc;
  }
  serve-IsOrderly (answer r o) c h = elim (Bool-cases (is_at c.awaited r)) [
    | inl e ↦
        let (now, below) = h.awaited r (is_at-some c.awaited r e) in
        rw e (record {
          decreasing = (below, h.decreasing);
          past = (omega (arith, now), h.past);
          awaited = λ n same. cc;
        })
    | inr e ↦ rw e h
  ]
  serve-IsOrderly (fill o) c h = record {
    decreasing = h.decreasing;
    past = h.past;
    awaited = h.awaited;
  }

  serve_all-IsOrderly :
      (qs : List (Request V)) (c : Cell V) → IsOrderly c → IsOrderly (serve_all qs c)
  unfolding serve_all
  serve_all-IsOrderly [] c h = h
  serve_all-IsOrderly (q ∷ qs) c h = serve_all-IsOrderly qs (serve q c) (serve-IsOrderly q c h)

  new_cell-IsOrderly : IsOrderly new_cell
  unfolding IsDecreasing AllBelow
  new_cell-IsOrderly = record { decreasing = tt; past = tt; awaited = λ r same. cc }

  module _ (digest : List (Option String) → String) (workers : ℕ) where
    -- However the threads are interleaved, the results that are shown for a key have ever greater
    -- revisions, none of them greater than that of the snapshot; a pending task has the revision of
    -- the snapshot, and it is greater than those of all results shown before.
    pub answers_in_order :
        (acts : List (Act V)) (key : String)
        → IsOrderly (cell (run digest workers acts new_system) key)
    answers_in_order acts key = rw (console_refines digest workers acts key) (
        serve_all-IsOrderly (requests digest workers acts new_system key) new_cell
          new_cell-IsOrderly)

    -- After any steps of any threads, a task that ends while the snapshot of its key has another
    -- revision than it, changes nothing: no snapshot, no event and no other task.
    pub obsolete_ignored :
        (acts : List (Act V)) (i : ℕ) (j : Job) (o : Outcome V) (now : ℕ)
        → get_elem? (run digest workers acts new_system).running i ≡ some j
        → revision_of (run digest workers acts new_system).store j.key ≢ j.revision
        → (step digest workers (settle i o now) (run digest workers acts new_system)).store
          ≡ (run digest workers acts new_system).store
    unfolding step
    obsolete_ignored acts i j o now at other =
        let s = run digest workers acts new_system in
        let orderly = answers_in_order acts j.key in
        elim (Bool-cases (is_current s.store j)) [
          | inr e ↦ rw at (settle_ignored j o now s.store e)
          | inl e ↦
              let (_, wanted) =
                and_true (not s.store.closed) (is_at (pending_of s.store j.key) j.revision) e in
              absurd (other (orderly.awaited j.revision (is_at-some _ _ wanted)).0)
        ]
