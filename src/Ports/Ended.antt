-- ===== src/Ports/Ended.antt =====
-- That `wait_listening` of mihomoctl/lifecycle/ports.py ends.
use mathlib.Core.Path.{subst}
use mihomo_userctl.Base.{
  ℕ, zero, suc, ◌+◌, ◌*◌, ◌≤◌, ◌≢◌, inl, inr, String, Bool, true, false, Option, none, some, List,
  [], ◌∷◌, ltb, ltb→lt, if◌then◌else◌, ok, raise, Bool-cases, arith,
}
use mihomo_userctl.Trust.{Checked}
use mihomo_userctl.Endpoints.{Endpoint}
use mihomo_userctl.Identity.{World, Look, onward, ◌>>=◌, answer, ProcessIdentity, alive}
use mihomo_userctl.Identity.Bound.{IsClock, onward_later, alive_later}
use mihomo_userctl.Ports.{Net, listening_rows}
use mihomo_userctl.Ports.Wait.{
  is_empty, add_inode, keep_unless, list_fds, read_fd, inodes_of, owns_by, owns_alive,
  owns_listener, of_user, satisfied, still_pending, nap, wait_from, wait_listening,
}

module _ (w : World) (net : Net) (id : ProcessIdentity) where
  later :
      {A B : Type 0} (t : ℕ) (p : Checked A × ℕ) (k : A → Look B)
      → t ≤ p.1
      → ((a : A) (u : ℕ) → u ≤ (k a u).1)
      → t ≤ (onward p k).1
  later = onward_later w id

  listening_rows_later :
      (address : Option String) (port : Option ℕ) (t : ℕ)
      → t ≤ (listening_rows net address port t).1
  unfolding listening_rows
  listening_rows_later address port t = omega arith

  answer_later : {A : Type 0} (r : Checked A) (t : ℕ) → t ≤ (answer r t).1
  answer_later r t = omega arith

  inodes_of_later : (pid : ℕ) (ns : List ℕ) (t : ℕ) → t ≤ (inodes_of w net pid ns t).1
  unfolding inodes_of
  inodes_of_later pid [] t = omega arith
  inodes_of_later pid (n ∷ ns) t =
      later t (read_fd w net pid n t)
        (λ inode. do inodes ← inodes_of w net pid ns; answer (ok (add_inode inode inodes)))
        (omega arith)
        (λ inode u.
          later u (inodes_of w net pid ns u) (λ inodes. answer (ok (add_inode inode inodes)))
            (inodes_of_later pid ns u) (λ inodes. answer_later (ok (add_inode inode inodes))))

  if_later :
      {A : Type 0} (b : Bool) (m k : Look A)
      → ((t : ℕ) → t ≤ (m t).1)
      → ((t : ℕ) → t ≤ (k t).1)
      → (t : ℕ) → t ≤ ((if b then m else k) t).1
  if_later true m k first second = first
  if_later false m k first second = second

  owns_by_later :
      (address : String) (port : ℕ) (ns : Option (List ℕ)) (t : ℕ)
      → t ≤ (owns_by w net id address port ns t).1
  owns_by_later address port none t = omega arith
  owns_by_later address port (some ns) t =
      later t (inodes_of w net id.pid ns t) _ (inodes_of_later id.pid ns t) (λ inodes u.
        later u (listening_rows net (some address) (some port) u) _
          (listening_rows_later (some address) (some port) u)
          (λ rows.
            if_later _ (alive w id) (answer (ok false)) (alive_later w id)
              (answer_later (ok false))))

  owns_alive_later :
      (address : String) (port : ℕ) (a : Bool) (t : ℕ)
      → t ≤ (owns_alive w net id address port a t).1
  owns_alive_later address port false t = omega arith
  owns_alive_later address port true t =
      later t (list_fds w net id.pid t) (owns_by w net id address port) (omega arith)
        (owns_by_later address port)

  owns_listener_later :
      (address : String) (port t : ℕ) → t ≤ (owns_listener w net id address port t).1
  unfolding owns_listener
  owns_listener_later address port t =
      later t (alive w id t) (owns_alive w net id address port) (alive_later w id t)
        (owns_alive_later address port)

  module _ (uid : ℕ) where
    satisfied_later : (e : Endpoint) (t : ℕ) → t ≤ (satisfied w net uid id e t).1
    unfolding satisfied
    satisfied_later e t =
        later t (listening_rows net (some e.address) (some e.port) t) _
          (listening_rows_later (some e.address) (some e.port) t)
          (λ rows.
            if_later (is_empty (of_user w net uid rows)) (answer (ok false))
              (owns_listener w net id e.address e.port) (answer_later (ok false))
              (owns_listener_later e.address e.port))

    still_pending_later : (es : List Endpoint) (t : ℕ) → t ≤ (still_pending w net uid id es t).1
    unfolding still_pending
    still_pending_later [] t = omega arith
    still_pending_later (e ∷ es) t =
        later t (satisfied w net uid id e t)
          (λ b. do rest ← still_pending w net uid id es; answer (ok (keep_unless w net b e rest)))
          (satisfied_later e t)
          (λ b u.
            later u (still_pending w net uid id es u)
              (λ rest. answer (ok (keep_unless w net b e rest))) (still_pending_later es u)
              (λ rest. answer_later (ok (keep_unless w net b e rest))))

    -- The loop has not run out of fuel.
    abbrev IsOver : Checked (Option Unit) → Type 0
    IsOver (ok none) = ⊥
    IsOver (ok (some _)) = Unit
    IsOver (raise e) = Unit

    after_round :
        (fuel deadline : ℕ) (p : Checked (List Endpoint) × ℕ)
        → ((es : List Endpoint)
            → IsOver (wait_from w net fuel uid id deadline es (w.nap 100 p.1)).0)
        → IsOver
            (onward p (λ rest.
              if is_empty rest
              then answer (ok (some tt))
              else (do _ ← nap w net 100; wait_from w net fuel uid id deadline rest))).0
    after_round fuel deadline (ok [], t) next = tt
    after_round fuel deadline (ok (e ∷ es), t) next = next (e ∷ es)
    after_round fuel deadline (raise x, t) next = tt

    module _ (clocked : IsClock w) where
      nap_moves : (start t : ℕ) → start ≤ t → w.monotonic start + 100 ≤ w.monotonic (w.nap 100 t)
      nap_moves start t le =
          let moved = clocked.forward start t le in let slept = clocked.slept 100 t in omega arith

      wait_from-IsOver :
          (rounds deadline : ℕ) (es : List Endpoint) (t : ℕ)
          → deadline ≤ w.monotonic t + 100 * rounds
          → IsOver (wait_from w net (suc rounds) uid id deadline es t).0
      unfolding wait_from
      wait_from-IsOver zero deadline es t enough =
          elim (Bool-cases (ltb (w.monotonic t) deadline)) [
            | inl early ↦ let low = ltb→lt (w.monotonic t) deadline early in absurd (omega arith)
            | inr late ↦ rw late tt
          ]
      wait_from-IsOver (suc rounds) deadline es t enough =
          elim (Bool-cases (ltb (w.monotonic t) deadline)) [
            | inl early ↦
                let after = still_pending_later es (suc t) in
                let moved = nap_moves t (still_pending w net uid id es (suc t)).1 (omega arith) in
                rw early (
                  after_round (suc rounds) deadline (still_pending w net uid id es (suc t)) (λ rest.
                    wait_from-IsOver rounds deadline rest
                      (w.nap 100 (still_pending w net uid id es (suc t)).1) (omega arith)))
            | inr late ↦ rw late tt
          ]

      -- `wait_listening` ends: on a clock that goes forward, fuel for one round more than the sleeps of
      -- 100 milliseconds that fit into the timeout is enough.
      pub wait_listening_ends :
          (rounds span : ℕ) (es : List Endpoint) (t : ℕ)
          → span ≤ 100 * rounds
          → (wait_listening w net (suc rounds) es uid span id t).0 ≢ ok none
      unfolding wait_listening
      wait_listening_ends rounds span es t enough h =
          let forward = clocked.forward t (suc t) (omega arith) in
          subst IsOver h (wait_from-IsOver rounds (w.monotonic t + span) es (suc t) (omega arith))
