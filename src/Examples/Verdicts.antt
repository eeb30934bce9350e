-- ===== src/Examples/Verdicts.antt =====
-- Verdicts of mihomoctl/envelope.py.
use mathlib.Core.List.{Permᴰ}
use mihomo_userctl.Base.{◌≡◌, refl, List, [], ◌∷◌, string_eq, nat_eq, ◌↔◌, All, Any}
use mihomo_userctl.Envelope.{Status, pass, fail, skipped, other, combine, exit_code}
use mihomo_userctl.Envelope.Verdict.{IsNeutral, IsFail, combine-perm, exit_code-combine}
use mihomo_userctl.Files.{path_eq}

combine-perm_example : combine (pass ∷ fail ∷ []) ≡ combine (fail ∷ pass ∷ [])
combine-perm_example = combine-perm ∣ Permᴰ.swap refl refl ∣₁

abbrev statuses : List Status
statuses = pass ∷ skipped ∷ other "WARN" ∷ []

exit_code-combine_example :
    ((exit_code (combine statuses) ≡ 0) ↔ All IsNeutral statuses)
    × ((exit_code (combine statuses) ≡ 1) ↔ Any IsFail statuses)
    × ((exit_code (combine statuses) ≡ 2) ↔ (¬ All IsNeutral statuses × ¬ Any IsFail statuses))
exit_code-combine_example = exit_code-combine statuses
