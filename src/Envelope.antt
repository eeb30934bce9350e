-- ===== src/Envelope.antt =====
-- mihomoctl/envelope.py: check statuses, the overall verdict and the exit code of the command.
pub mod Verdict
use mihomo_userctl.Base.{
  ℕ, String, Bool, true, false, Option, none, some, List, [], ◌∷◌, map, ltb, if◌then◌else◌,
}

-- `other` is a text that is none of the four constants.
pub data Status : Type 0 where
  pass fail unverified skipped : Status
  other : String → Status

pub data Evidence : Type 0 where
  confirmed inferred unavailable : Evidence

pub record Check : Type 0 where
  pub name : String
  pub status : Status
  pub evidence : Evidence
  pub detail : String

-- `_ORDER`; `none` where the key is missing
unfoldable pub order : Status → Option ℕ
order pass = some 0
order skipped = some 1
order unverified = some 2
order fail = some 3
order (other _) = none

-- `_ORDER.get(status, _ORDER[UNVERIFIED])`
unfoldable pub rank : Status → ℕ
unfolding order
rank s = elim (order s) [ none ↦ 2 | some n ↦ n ]

-- `if status not in _ORDER: status = UNVERIFIED`
unfoldable pub known : Status → Status
known (other _) = unverified
known s = s

-- One round of the loop of `combine`, on a known status.
abbrev pub worse : Status → Status → Status
worse worst skipped = worst
worse worst s = if ltb (rank worst) (rank s) then s else worst

-- The loop of `combine`.
unfoldable pub combine_from : Status → List Status → Status
unfolding known rank
combine_from worst [] = worst
combine_from worst (s ∷ ss) = combine_from (worse worst (known s)) ss

unfoldable pub combine : List Status → Status
unfolding combine_from
combine = combine_from pass

unfoldable pub combine_checks : List Check → Status
unfolding combine
combine_checks checks = combine (map (λ c. c.status) checks)

unfoldable pub exit_code : Status → ℕ
exit_code pass = 0
exit_code fail = 1
exit_code _ = 2
