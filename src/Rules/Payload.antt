-- ===== src/Rules/Payload.antt =====
-- Which rule files are accepted, and how many rules they have.
use mihomo_userctl.Base.{
  bind_ok, ℕ, suc, ◌+◌, ◌≤◌, String, ◌≡◌, ◌≢◌, ◌⊎◌, refl, inl, inr, true, false, Option, none, some,
  List, [], ◌∷◌, string_eq, nat_eq, ok, arith, Bool-cases,
}
use mihomo_userctl.Rules.{
  max_rules, is_skipped, after_dash, item_of, read_line, read_lines, count_rules,
}

-- A rule: a list item of at most eight spaces of indentation that is no flow collection, anchor,
-- alias, tag or merge key.
abbrev pub IsRule : String → Type 0
IsRule line =
    (is_skipped line ≡ false) × (line ≢ "payload:") × (item_of (after_dash 8 line) 1 0 ≡ ok (1, 1))

-- Skipped lines and rules, this many.
abbrev pub HasRules : List String → ℕ → Type 0
HasRules [] n = n ≡ 0
HasRules (line ∷ lines) n =
    ((is_skipped line ≡ true) × HasRules lines n)
    ⊎ (IsRule line × (m : ℕ) × (n ≡ suc m) × HasRules lines m)

-- Skipped lines, the header, and then skipped lines and rules.
abbrev pub HasPayload : List String → ℕ → Type 0
HasPayload [] n = ⊥
HasPayload (line ∷ lines) n =
    ((is_skipped line ≡ true) × HasPayload lines n) ⊎ ((line ≡ "payload:") × HasRules lines n)

item_shift :
    (o : Option String) (count : ℕ) (seen : ℕ × ℕ)
    → item_of o 1 count ≡ ok seen
    → (seen ≡ (1, suc count)) × (suc count ≤ max_rules) × (item_of o 1 0 ≡ ok (1, 1))
item_shift none count seen h = cc
item_shift (some s) count seen h = ground arith

read_line_ok :
    (line : String) (count : ℕ) (seen : ℕ × ℕ)
    → read_line line (1, count) ≡ ok seen
    → ((is_skipped line ≡ true) × (seen ≡ (1, count)))
      ⊎ (seen ≡ (2, count))
      ⊎ (IsRule line × (seen ≡ (1, suc count)) × (suc count ≤ max_rules))
unfolding read_line
read_line_ok line count seen h = ground (arith, item_shift (after_dash 8 line) count seen)

read_line_twice :
    (line : String) (p count : ℕ) (seen : ℕ × ℕ)
    → read_line line (suc (suc p), count) ≡ ok seen
    → (q : ℕ) × (seen ≡ (suc (suc q), count))
unfolding read_line
read_line_twice line p count seen h = elim (Bool-cases (is_skipped line)) [
  | inl e ↦ (p, ground arith)
  | inr e ↦ (suc p, ground arith)
]

-- A second header is never accepted.
refuses_twice : (lines : List String) (p count n : ℕ) → read_lines lines (suc (suc p), count) ≢ ok n
unfolding read_lines
refuses_twice [] p count n h = ground arith
refuses_twice (line ∷ lines) p count n h =
    let (seen, e, h1) = bind_ok (read_line line (suc (suc p), count)) (read_lines lines) h in
    let (q, same) = read_line_twice line p count seen e in
    refuses_twice lines q count n (rw same at h1)

abbrev IsCounted : List String → ℕ → ℕ → Type 0
IsCounted lines count n = (m : ℕ) × HasRules lines m × (n ≡ count + m) × (1 ≤ n) × (n ≤ max_rules)

read_lines_after :
    (lines : List String) (count n : ℕ)
    → count ≤ max_rules
    → read_lines lines (1, count) ≡ ok n
    → IsCounted lines count n
unfolding read_lines
read_lines_after [] count n few h = (0, refl, ground arith, ground arith, ground arith)
read_lines_after (line ∷ lines) count n few h =
    let (seen, e, h1) = bind_ok (read_line line (1, count)) (read_lines lines) h in
    elim (read_line_ok line count seen e) [
      | inl (skipped, same) ↦
          let (m, rules, sum, some_rule, all) =
            read_lines_after lines count n few (rw same at h1) in
          (m, inl (skipped, rules), sum, some_rule, all)
      | inr (inl same) ↦ absurd (refuses_twice lines 0 count n (rw same at h1))
      | inr (inr (rule, same, bound)) ↦
          let (m, rules, sum, some_rule, all) =
            read_lines_after lines (suc count) n bound (rw same at h1) in
          (suc m, inr (rule, m, refl, rules), omega arith, some_rule, all)
    ]

read_line_first :
    (line : String) (seen : ℕ × ℕ)
    → read_line line (0, 0) ≡ ok seen
    → ((is_skipped line ≡ true) × (seen ≡ (0, 0))) ⊎ ((line ≡ "payload:") × (seen ≡ (1, 0)))
unfolding read_line
read_line_first line seen h = ground arith

-- An accepted file has exactly one header, before it only blank lines and comments, and after it
-- blank lines, comments and as many rules as are counted: at least one and at most 100000.
pub count_rules-HasPayload :
    (lines : List String) (n : ℕ)
    → count_rules lines ≡ ok n
    → HasPayload lines n × (1 ≤ n) × (n ≤ max_rules)
unfolding count_rules read_lines
count_rules-HasPayload [] n h = ground arith
count_rules-HasPayload (line ∷ lines) n h =
    let (seen, e, h1) = bind_ok (read_line line (0, 0)) (read_lines lines) h in
    elim (read_line_first line seen e) [
      | inl (skipped, same) ↦
          let (payload, some_rule, all) = count_rules-HasPayload lines n (rw same at h1) in
          (inl (skipped, payload), some_rule, all)
      | inr (header, same) ↦
          let (m, rules, sum, some_rule, all) =
            read_lines_after lines 0 n (omega arith) (rw same at h1) in
          let same_count : n ≡ m = omega arith in
          (inr (header, rw same_count rules), some_rule, all)
    ]
