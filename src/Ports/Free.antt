-- ===== src/Ports/Free.antt =====
-- What `check_ports_free` of mihomoctl/lifecycle/ports.py has seen where it returns.
use mihomo_userctl.Base.{
  ℕ, ◌≡◌, refl, ap, String, Bool, true, false, not, some, List, [], ◌∷◌, All, ok, ok_injective,
}
use mihomo_userctl.Trust.{Checked}
use mihomo_userctl.Endpoints.{Endpoint}
use mihomo_userctl.Identity.{World}
use mihomo_userctl.Identity.Seen.{onward_reached}
use mihomo_userctl.Ports.{Net, Row, listening_rows}
use mihomo_userctl.Ports.Wait.{
  is_empty, keep_unless, probe, unavailable, occupied, free_if, check_ports_free,
}

module _ (w : World) (net : Net) (can_bind : ℕ → String → ℕ → Bool) where
  -- At one tick nothing listened there, and at the next one a socket could be bound.
  pub record IsFree (e : Endpoint) : Type 0 where
    pub at : ℕ
    pub after : ℕ
    pub silent : (listening_rows net (some e.address) (some e.port) at).0 ≡ ok []
    pub bound : can_bind after e.address e.port ≡ true

  not-true : (b : Bool) → ◌≡◌ {A = Checked Bool} (ok (not b)) (ok false) → b ≡ true
  not-true true h = refl
  not-true false h = cc

  by_rows :
      (e : Endpoint) (rows : List Row) (t t1 u : ℕ)
      → (listening_rows net (some e.address) (some e.port) t).0 ≡ ok rows
      → probe w net can_bind (not (is_empty rows)) e t1 ≡ (ok false, u)
      → IsFree e
  by_rows e [] t t1 u silent h = record {
    at = t;
    after = t1;
    silent = silent;
    bound = not-true (can_bind t1 e.address e.port) (ap (λ p. p.0) h);
  }
  by_rows e (row ∷ rows) t t1 u silent h = absurd (cc (ap (λ p. p.0) h))

  unavailable_ok :
      (e : Endpoint) (t u : ℕ) → unavailable w net can_bind e t ≡ (ok false, u) → IsFree e
  unfolding unavailable
  unavailable_ok e t u h =
      let (rows, t1, e1, h1) =
        onward_reached (listening_rows net (some e.address) (some e.port) t) _ h in
      by_rows e rows t t1 u (ap (λ p. p.0) e1) h1

  by_answer :
      (e : Endpoint) (taken : List Endpoint) (b : Bool) (t u : ℕ)
      → unavailable w net can_bind e t ≡ (ok b, u)
      → is_empty (keep_unless w net (not b) e taken) ≡ true
      → IsFree e × (is_empty taken ≡ true)
  by_answer e taken true t u h none_taken = cc
  by_answer e taken false t u h none_taken = (unavailable_ok e t u h, none_taken)

  occupied_ok :
      (es taken : List Endpoint) (t u : ℕ)
      → occupied w net can_bind es t ≡ (ok taken, u)
      → is_empty taken ≡ true
      → All IsFree es
  unfolding occupied
  occupied_ok [] taken t u h none_taken = tt
  occupied_ok (e ∷ es) taken t u h none_taken =
      let (b, t1, e1, h1) = onward_reached (unavailable w net can_bind e t) _ h in
      let (others, t2, e2, h2) = onward_reached (occupied w net can_bind es t1) _ h1 in
      let same : keep_unless w net (not b) e others ≡ taken = ok_injective (ap (λ p. p.0) h2) in
      let (free, rest) = by_answer e others b t t1 e1 (rw same none_taken) in
      (free, occupied_ok es others t1 t2 e2 rest)

  free_if_ok : (b : Bool) (t u : ℕ) → free_if w net can_bind b t ≡ (ok tt, u) → b ≡ true
  free_if_ok true t u h = refl
  free_if_ok false t u h = absurd (cc (ap (λ p. p.0) h))

  -- If `check_ports_free` returns, then for each endpoint there was a tick at which no socket
  -- listened at its address and port, and one at which a socket could be bound there.
  pub check_ports_free_ok :
      (es : List Endpoint) (t u : ℕ)
      → check_ports_free w net can_bind es t ≡ (ok tt, u)
      → All IsFree es
  unfolding check_ports_free
  check_ports_free_ok es t u h =
      let (taken, t1, e1, h1) = onward_reached (occupied w net can_bind es t) _ h in
      occupied_ok es taken t t1 e1 (free_if_ok (is_empty taken) t1 u h1)
