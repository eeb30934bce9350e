-- ===== src/Examples/ConsoleRuns.antt =====
-- Runs of the console of mihomoctl/controller/controller_state.py: a task that is invalidated while it
-- runs, one that fails, and a stream.
use mihomo_userctl.Base.Dict
use mihomo_userctl.Console.Actions
use mihomo_userctl.Base.{
  suc, zero, string_eq, nat_eq, ℕ, String, ◌≡◌, refl, Option, none, some, List, [], ◌∷◌, arith,
}
use mihomo_userctl.Console.Actions.{Outcome, returned, raised}
use mihomo_userctl.Console.Schedule.{
  Act, submit, invalidate, stream, take, settle, emit, step, run, new_system,
}
use mihomo_userctl.Console.Books.{pending_of}
use mihomo_userctl.Console.Cells.{cell, serve_all, new_cell}
use mihomo_userctl.Console.Bounds.{IsBounded, console_bounds}
use mihomo_userctl.Console.Refined.{requests, console_refines}
use mihomo_userctl.Console.Answers.{obsolete_ignored}
use mihomo_userctl.Console.Settles.{rounds, tasks_settle}

abbrev no_digest : List (Option String) → String
no_digest texts = "id"

abbrev late_acts : List (Act ℕ)
late_acts =
    submit "nodes"
    ∷ take
    ∷ invalidate "nodes"
    ∷ submit "nodes"
    ∷ settle 0 (returned (some 1)) 10
    ∷ take
    ∷ settle 0 (returned (some 2)) 20
    ∷ stream "logs"
    ∷ emit 0 (returned (some 3)) 30
    ∷ submit "nodes"
    ∷ take
    ∷ settle 0 (raised "controller-unreachable" "" none) 40
    ∷ submit "nodes"
    ∷ []

-- The late result of the first task is dropped, and the error of the third keeps the value.
late_cell :
    cell (run no_digest 2 late_acts new_system) "nodes"
    ≡ record { version = 5; awaited = some 5; value = some 2; answered = 4 ∷ 3 ∷ [] }
unfolding Dict.get run Actions.invalidate Dict.remove Dict.put string_eq nat_eq Actions.emit
late_cell = refl

console_bounds_example : IsBounded no_digest 2 (run no_digest 2 late_acts new_system)
console_bounds_example = console_bounds no_digest 2 late_acts

console_refines_example :
    cell (run no_digest 2 late_acts new_system) "nodes"
    ≡ serve_all (requests no_digest 2 late_acts new_system "nodes") new_cell
console_refines_example = console_refines no_digest 2 late_acts "nodes"

-- The worker ends the task of an earlier revision.
abbrev stale_acts : List (Act ℕ)
stale_acts = submit "nodes" ∷ take ∷ invalidate "nodes" ∷ submit "nodes" ∷ []

obsolete_ignored_example :
    (step no_digest 2
      (settle 0 (returned (some 1)) 10)
      (run no_digest 2 stale_acts new_system)).store
    ≡ (run no_digest 2 stale_acts new_system).store
unfolding run Dict.get Dict.put Dict.remove string_eq nat_eq Actions.invalidate
obsolete_ignored_example =
    obsolete_ignored no_digest 2 stale_acts 0 _ (returned (some 1)) 10 refl (λ e. cc)

abbrev many : ℕ → List (Outcome ℕ × ℕ)
many zero = []
many (suc n) = (returned (some 7), 50) ∷ many n

tasks_settle_example :
    pending_of
      (run no_digest 2 (rounds (many 66)) (run no_digest 2 late_acts new_system)).store
      "nodes"
    ≡ none
unfolding Dict.get run Actions.invalidate Dict.remove Dict.put string_eq nat_eq Actions.emit
tasks_settle_example =
    tasks_settle no_digest 2 (omega arith) late_acts (many 66) "nodes" refl (omega arith)
