-- ===== src/Ports/Ready.antt =====
-- What the checks of mihomoctl/lifecycle/ports.py have seen where they return.
use mihomo_userctl.Base.{
  ℕ, ◌≡◌, ap, inl, inr, String, Bool, true, false, not, Option, none, some, List, ◌&&◌, all, ok,
  Bool-cases, arith,
}
use mihomo_userctl.Endpoints.{Endpoint}
use mihomo_userctl.Identity.{World, ◌>>=◌, ProcessIdentity, alive}
use mihomo_userctl.Identity.Seen.{onward_reached}
use mihomo_userctl.Ports.{Net, Row, listening_rows}
use mihomo_userctl.Ports.Wait.{
  is_empty, is_held, list_fds, inodes_of, held_alive, owns_by, owns_alive, owns_listener,
}

module _ (w : World) (net : Net) where
  -- At one tick sockets listened there, all of them the user's and among those that the process had
  -- open, and at a later one the process was there.
  pub record IsOwned (id : ProcessIdentity) (address : String) (port : ℕ) : Type 0 where
    pub at : ℕ
    pub after : ℕ
    pub rows : List Row
    pub inodes : List String
    pub listening : (listening_rows net (some address) (some port) at).0 ≡ ok rows
    pub some_row : is_empty rows ≡ false
    pub held : all (is_held id.uid inodes) rows ≡ true
    pub opened : (ns : List ℕ) × (t : ℕ) × ((inodes_of w net id.pid ns t).0 ≡ ok inodes)
    pub still_there : (alive w id after).0 ≡ ok true

  held_alive_ok :
      (id : ProcessIdentity) (inodes : List String) (rows : List Row) (t u : ℕ)
      → held_alive w net id inodes rows t ≡ (ok true, u)
      → (is_empty rows ≡ false)
        × (all (is_held id.uid inodes) rows ≡ true)
        × ((alive w id t).0 ≡ ok true)
  held_alive_ok id inodes rows t u h =
      elim (Bool-cases (not (is_empty rows) && all (is_held id.uid inodes) rows)) [
        | inl e ↦ let there = ap (λ p. p.0) (rw e at h) in (ground arith, ground arith, there)
        | inr e ↦ absurd (cc (ap (λ p. p.0) (rw e at h)))
      ]

  owns_by_ok :
      (id : ProcessIdentity) (address : String) (port : ℕ) (ns : Option (List ℕ)) (t u : ℕ)
      → owns_by w net id address port ns t ≡ (ok true, u)
      → IsOwned id address port
  owns_by_ok id address port none t u h = absurd (cc (ap (λ p. p.0) h))
  owns_by_ok id address port (some ns) t u h =
      let (inodes, t1, e1, h1) = onward_reached (inodes_of w net id.pid ns t) _ h in
      let (rows, t2, e2, h2) =
        onward_reached (listening_rows net (some address) (some port) t1) _ h1 in
      let (some_row, held, there) = held_alive_ok id inodes rows t2 u h2 in
      record {
        at = t1;
        after = t2;
        rows = rows;
        inodes = inodes;
        listening = ap (λ p. p.0) e2;
        some_row = some_row;
        held = held;
        opened = (ns, t, ap (λ p. p.0) e1);
        still_there = there;
      }

  owns_alive_ok :
      (id : ProcessIdentity) (address : String) (port : ℕ) (a : Bool) (t u : ℕ)
      → owns_alive w net id address port a t ≡ (ok true, u)
      → IsOwned id address port
  owns_alive_ok id address port false t u h = absurd (cc (ap (λ p. p.0) h))
  owns_alive_ok id address port true t u h =
      let (ns, t1, _, h1) =
        onward_reached (list_fds w net id.pid t) (owns_by w net id address port) h in
      owns_by_ok id address port ns t1 u h1

  pub owns_listener_ok :
      (id : ProcessIdentity) (address : String) (port t u : ℕ)
      → owns_listener w net id address port t ≡ (ok true, u)
      → IsOwned id address port
  unfolding owns_listener
  owns_listener_ok id address port t u h =
      let (a, t1, _, h1) = onward_reached (alive w id t) _ h in
      owns_alive_ok id address port a t1 u h1

  module _ (uid : ℕ) (id : ProcessIdentity) where
    abbrev pub IsUp : Endpoint → Type 0
    IsUp e = IsOwned id e.address e.port
