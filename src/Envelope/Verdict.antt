-- ===== src/Envelope/Verdict.antt =====
-- What the overall verdict of a list of checks says about them.
use mathlib.Core.List.{Perm, Permᴰ}
use mathlib.Core.Logic.{∥∥₁_elim}
use mathlib.Core.HLevel.{hedberg}
use mihomo_userctl.Base.{
  ◌≡◌, ◌↔◌, ◌⊎◌, refl, ◌∙◌, inl, inr, List, [], ◌∷◌, arith, All, Any, string_discrete,
}
use mihomo_userctl.Envelope.{
  Status, pass, fail, skipped, known, rank, worse, combine_from, combine, exit_code,
}

abbrev pub IsFail : Status → Type 0
IsFail s = s ≡ fail

abbrev pub IsNeutral : Status → Type 0
IsNeutral s = (s ≡ pass) ⊎ (s ≡ skipped)

pub Status-discrete : Discrete Status
Status-discrete = hlevel string_discrete

-- One round, by the status that it meets.
worse-eq-fail : (w s : Status) → (worse w (known s) ≡ fail) ↔ ((w ≡ fail) ⊎ (s ≡ fail))
unfolding known rank
worse-eq-fail w s = ground arith

worse-eq-pass : (w s : Status) → (worse w (known s) ≡ pass) ↔ ((w ≡ pass) × IsNeutral s)
unfolding known rank
worse-eq-pass w s = ground arith

worse_comm :
    (w a b : Status) → worse (worse w (known a)) (known b) ≡ worse (worse w (known b)) (known a)
unfolding known rank
worse_comm w a b = ground arith

combine_from-eq-fail :
    (w : Status) (ss : List Status) → (combine_from w ss ≡ fail) ↔ ((w ≡ fail) ⊎ Any IsFail ss)
unfolding combine_from
combine_from-eq-fail w [] = (inl, elim [ inl e ↦ e | inr h ↦ absurd h ])
combine_from-eq-fail w (s ∷ ss) =
    ground (arith, combine_from-eq-fail (worse w (known s)) ss, worse-eq-fail w s)

combine_from-eq-pass :
    (w : Status) (ss : List Status) → (combine_from w ss ≡ pass) ↔ ((w ≡ pass) × All IsNeutral ss)
unfolding combine_from
combine_from-eq-pass w [] = (λ e. (e, tt), λ h. h.0)
combine_from-eq-pass w (s ∷ ss) =
    ground (arith, combine_from-eq-pass (worse w (known s)) ss, worse-eq-pass w s)

combine_from-perm :
    {xs ys : List Status} → Permᴰ xs ys → (w : Status) → combine_from w xs ≡ combine_from w ys
unfolding combine_from
combine_from-perm Permᴰ.nil w = refl
combine_from-perm (Permᴰ.cons e p) w = rw e (combine_from-perm p _)
combine_from-perm (Permᴰ.swap {a = a} {b = b} e f) w = rw (← e, ← f, worse_comm w a b)
combine_from-perm (Permᴰ.trans p q) w = combine_from-perm p w ∙ combine_from-perm q w

-- The verdict does not depend on the order in which the checks are listed.
pub combine-perm : {xs ys : List Status} → Perm xs ys → combine xs ≡ combine ys
unfolding combine
combine-perm p = ∥∥₁_elim p (hedberg Status-discrete _ _) (λ q. combine_from-perm q pass)

-- The exit code of a list of checks is 0 exactly when every check passed or was skipped, it is 1
-- exactly when some check failed, and it is 2 exactly when neither is the case.
pub exit_code-combine :
    (ss : List Status)
    → ((exit_code (combine ss) ≡ 0) ↔ All IsNeutral ss)
      × ((exit_code (combine ss) ≡ 1) ↔ Any IsFail ss)
      × ((exit_code (combine ss) ≡ 2) ↔ (¬ All IsNeutral ss × ¬ Any IsFail ss))
unfolding combine exit_code
exit_code-combine ss = ground (arith, combine_from-eq-fail pass ss, combine_from-eq-pass pass ss)
