-- ===== src/Console/Tasks.antt =====
-- Looking for a task in a list, for the proofs about mihomoctl/controller/controller_state.py.
use mihomo_userctl.Base.{
  ℕ, zero, suc, ◌≡◌, refl, String, Bool, true, false, some, List, [], ◌∷◌, ◌++◌, ◌==◌, ◌||◌, ◌&&◌,
  nat_eq, string_eq, get_elem?, erase_at, arith,
}
use mihomo_userctl.Console.{Job}

abbrev pub is_task : String → ℕ → Job → Bool
is_task key r j = j.key == key && j.revision == r

unfoldable pub has_task : String → ℕ → List Job → Bool
has_task key r [] = false
has_task key r (j ∷ js) = is_task key r j || has_task key r js

pub is_same : (a b : ℕ) → (a == b) ≡ true → (b == a) ≡ true
is_same a b h = ground arith

pub or_left : (a b : Bool) → a ≡ true → (a || b) ≡ true
or_left true b e = refl
or_left false b e = cc

pub or_right : (a b : Bool) → b ≡ true → (a || b) ≡ true
or_right true b e = refl
or_right false b e = e

pub or_more : (a b c d : Bool) → a ≡ (b || c) → (b || d) ≡ true → (a || d) ≡ true
or_more a true c d e h = rw e refl
or_more a false c true e h = or_right a true refl
or_more a false c false e h = cc

pub turned : (a b c : Bool) → ((a || b) || c) ≡ true → (b || (c || (a || false))) ≡ true
turned true true c h = refl
turned true false true h = refl
turned true false false h = refl
turned false true c h = refl
turned false false true h = refl
turned false false false h = h

pub has_task-append :
    (key : String) (r : ℕ) (xs ys : List Job)
    → has_task key r (xs ++ ys) ≡ (has_task key r xs || has_task key r ys)
unfolding has_task
has_task-append key r [] ys = refl
has_task-append key r (x ∷ xs) ys =
    rw (has_task-append key r xs ys)
      (or-assoc (is_task key r x) (has_task key r xs) (has_task key r ys))
  where
    or-assoc : (a b c : Bool) → (a || (b || c)) ≡ ((a || b) || c)
    or-assoc true b c = refl
    or-assoc false b c = refl

pub has_task-erase_at :
    (key : String) (r : ℕ) (xs : List Job) (i : ℕ) (j : Job)
    → get_elem? xs i ≡ some j
    → is_task key r j ≡ false
    → has_task key r (erase_at xs i) ≡ has_task key r xs
unfolding has_task
has_task-erase_at key r [] i j e f = refl
has_task-erase_at key r (x ∷ xs) zero j e f = let same : x ≡ j = cc in rw (same, f) refl
has_task-erase_at key r (x ∷ xs) (suc i) j e f = rw (has_task-erase_at key r xs i j e f) refl
