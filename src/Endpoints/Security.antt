-- ===== src/Endpoints/Security.antt =====
-- What holds of every configuration that `parse_endpoints` accepts.
use mihomo_userctl.Base.{
  bind_ok, raise_if_ok, ℕ, String, ◌≡◌, ◌≢◌, ◌⊎◌, ◌≤◌, inl, inr, Bool, true, false, not, Option,
  none, some, List, [], ◌∷◌, ◌++◌, ◌==◌, ◌&&◌, string_eq, nat_eq, any, contains, if◌then◌else◌, ok,
  raise, raise_if, All, All-append, arith, Bool-cases,
}
use mihomo_userctl.Trust.{Checked}
use mihomo_userctl.Yaml.{
  Yaml, null, int, text, list, mapping, Items, nil, item, Entries, get, has_only,
}
use mihomo_userctl.Endpoints.{
  Python, check_address, wildcards, loopbacks, proxy_types, transparent_types, Endpoint, invalid,
  normalize_address, port_of, parse_users,
}
use mihomo_userctl.Endpoints.Parse.{
  add, add_listener, parse_listener, parse_items, parse_listeners, parse_legacy, parse_legacies,
  authorizes, or_local, listed, inherited, text_of, is_name,
}

abbrev pub IsIn : String → List String → Type 0
IsIn s xs = contains xs s ≡ true

-- An endpoint in the managed range of ports, on no wildcard address, but on a loopback address or,
-- in system scope, on one that was authorized; a proxy asks for credentials.
pub record IsSecure (system : Bool) (allowed : List String) (e : Endpoint) : Type 0 where
  pub low : 1024 ≤ e.port
  pub high : e.port ≤ 65535
  pub specific : contains wildcards e.address ≡ false
  pub local : IsIn e.address loopbacks ⊎ ((system ≡ true) × IsIn e.address allowed)
  pub guarded : IsIn e.type proxy_types → e.authenticated ≡ true

-- The two have different names and bind different addresses or ports.
abbrev pub AreApart : Endpoint → Endpoint → Type 0
AreApart e o = (o.name ≢ e.name) × ¬ ((o.address ≡ e.address) × (o.port ≡ e.port))

-- Each endpoint is apart from the later ones.
abbrev pub AreDistinct : List Endpoint → Type 0
AreDistinct [] = Unit
AreDistinct (e ∷ es) = All (λ o. AreApart o e) es × AreDistinct es

abbrev pub AreSound : Bool → List String → List Endpoint → Type 0
AreSound system allowed es = All (IsSecure system allowed) es × AreDistinct es

none_same :
    (e : Endpoint) (es : List Endpoint)
    → any (λ o. o.name == e.name) es ≡ false
    → any (λ o. o.address == e.address && o.port == e.port) es ≡ false
    → All (AreApart e) es
none_same e [] h k = tt
none_same e (o ∷ es) h k = (ground arith, none_same e es (ground arith) (ground arith))

AreDistinct-append :
    (es : List Endpoint) (e : Endpoint)
    → AreDistinct es
    → All (AreApart e) es
    → AreDistinct (es ++ e ∷ [])
AreDistinct-append [] e d h = (tt, tt)
AreDistinct-append (o ∷ es) e d h =
    (All-append (λ q. AreApart q o) es (e ∷ []) d.0 (h.0, tt), AreDistinct-append es e d.1 h.1)

port_of_range : (v : Option Yaml) (n : ℕ) → port_of v ≡ ok n → (1024 ≤ n) × (n ≤ 65535)
unfolding port_of
port_of_range (some (int k)) n h = ground arith
port_of_range none n h = cc
port_of_range (some _) n h = cc

authorizes_system :
    (system : Bool) (allowed : List String) → authorizes system allowed ≡ true → system ≡ true
authorizes_system system [] h = cc
authorizes_system system (_ ∷ _) h = h

-- An accepted address is no wildcard, and a loopback address unless others are authorized.
abbrev IsPlace : Bool → String → Type 0
IsPlace allow a = (contains wildcards a ≡ false) × (IsIn a loopbacks ⊎ (allow ≡ true))

by_tests :
    (wild local allow : Bool) (b a : String)
    → (if wild
        then raise invalid
        else if local
        then ok b
        else if allow
        then ok b
        else raise invalid)
      ≡ ok a
    → (b ≡ a) × (wild ≡ false) × ((local ≡ true) ⊎ (allow ≡ true))
by_tests wild local allow b a h = ground arith

check_address_ok :
    (allow : Bool) (o : Option String) (a : String) → check_address allow o ≡ ok a → IsPlace allow a
check_address_ok allow none a h = cc
check_address_ok allow (some b) a h =
    let (same, specific, local) =
      by_tests (contains wildcards b) (contains loopbacks b) allow b a h in
    rw (← same) (specific, local)

module _ (py : Python) (system : Bool) (allowed : List String) where
  normalize_address_ok :
      (allow : Bool) (raw : Yaml) (a : String)
      → normalize_address py allow raw ≡ ok a
      → IsPlace allow a
  unfolding normalize_address
  normalize_address_ok allow (text raw) a h = elim (Bool-cases (raw == "")) [
    | inl e ↦ absurd (cc (rw e at h))
    | inr e ↦ check_address_ok allow _ a (rw e at h)
  ]
  normalize_address_ok allow _ a h = cc

  unchanged :
      (es es' : List Endpoint)
      → AreSound system allowed es
      → ◌≡◌ {A = Checked (List Endpoint)} (ok es) (ok es')
      → AreSound system allowed es'
  unchanged es es' s h = ground arith

  add_ok :
      (e : Endpoint) (es es' : List Endpoint)
      → add py system allowed e es ≡ ok es'
      → (IsIn e.address loopbacks ⊎ IsIn e.address allowed)
        × (any (λ o. o.name == e.name) es ≡ false)
        × (any (λ o. o.address == e.address && o.port == e.port) es ≡ false)
        × (es' ≡ es ++ e ∷ [])
  unfolding add
  add_ok e es es' h = ground arith

  where_of :
      (a : String)
      → IsIn a loopbacks ⊎ IsIn a allowed
      → IsIn a loopbacks ⊎ (authorizes system allowed ≡ true)
      → IsIn a loopbacks ⊎ ((system ≡ true) × IsIn a allowed)
  where_of a (inl l) k = inl l
  where_of a (inr i) (inl l) = inl l
  where_of a (inr i) (inr k) = inr (authorizes_system system allowed k, i)

  add-AreSound :
      (e : Endpoint) (es es' : List Endpoint)
      → AreSound system allowed es
      → (1024 ≤ e.port) × (e.port ≤ 65535)
      → IsPlace (authorizes system allowed) e.address
      → (IsIn e.type proxy_types → e.authenticated ≡ true)
      → add py system allowed e es ≡ ok es'
      → AreSound system allowed es'
  add-AreSound e es es' s range place guarded h =
      let (local, names, binds, same) = add_ok e es es' h in
      let new : IsSecure system allowed e = record {
        low = range.0;
        high = range.1;
        specific = place.0;
        local = where_of e.address local place.1;
        guarded = guarded;
      } in
      rw same (
        All-append (IsSecure system allowed) es (e ∷ []) s.0 (new, tt),
        AreDistinct-append es e s.1 (none_same e es names binds),
      )

  asks :
      (type : String) (auth : Bool)
      → (contains proxy_types type && not auth) ≡ false
      → IsIn type proxy_types
      → auth ≡ true
  asks type auth h k = ground arith

  add_listener-AreSound :
      (d : Entries) (name type : String) (es es' : List Endpoint)
      → AreSound system allowed es
      → add_listener py system allowed d name type es ≡ ok es'
      → AreSound system allowed es'
  unfolding add_listener
  add_listener-AreSound d name type es es' s h =
      let (auth, _, h1) = bind_ok (parse_users (get d "users")) _ h in
      let (_, _, h2) =
        bind_ok (raise_if (contains transparent_types type && not system) invalid) _ h1 in
      let (_, safe, h3) = bind_ok (raise_if (contains proxy_types type && not auth) invalid) _ h2 in
      let (port, found, h4) = bind_ok (port_of (get d "port")) _ h3 in
      let (address, found_at, h5) =
        bind_ok (normalize_address py (authorizes system allowed) (or_local (get d "listen"))) _
          h4 in
      add-AreSound (listed name type address port auth) es es' s (port_of_range _ port found)
        (normalize_address_ok _ (or_local (get d "listen")) address found_at)
        (asks type auth (raise_if_ok _ invalid safe)) h5

  parse_listener-AreSound :
      (v : Yaml) (es es' : List Endpoint)
      → AreSound system allowed es
      → parse_listener py system allowed v es ≡ ok es'
      → AreSound system allowed es'
  unfolding parse_listener
  parse_listener-AreSound (mapping d) es es' s h =
      let (_, _, h1) =
        bind_ok
          (raise_if (not (has_only ("name" ∷ "type" ∷ "listen" ∷ "port" ∷ "users" ∷ []) d)) invalid)
          _ h in
      let (name, _, h2) = bind_ok (text_of py system allowed (get d "name")) _ h1 in
      let (_, _, h3) = bind_ok (raise_if (not (is_name py system allowed name)) invalid) _ h2 in
      let (type, _, h4) = bind_ok (text_of py system allowed (get d "type")) _ h3 in
      let (_, _, h5) =
        bind_ok (raise_if (not (contains (proxy_types ++ transparent_types) type)) invalid) _ h4 in
      add_listener-AreSound d name type es es' s h5
  parse_listener-AreSound _ es es' s h = cc

  parse_items-AreSound :
      (vs : Items) (es es' : List Endpoint)
      → AreSound system allowed es
      → parse_items py system allowed vs es ≡ ok es'
      → AreSound system allowed es'
  unfolding parse_items
  parse_items-AreSound nil es es' s h = unchanged es es' s h
  parse_items-AreSound (item v vs) es es' s h =
      let (next, e, h1) = bind_ok (parse_listener py system allowed v es) _ h in
      parse_items-AreSound vs next es' (parse_listener-AreSound v es next s e) h1

  pub parse_listeners-AreSound :
      (v : Option Yaml) (es' : List Endpoint)
      → parse_listeners py system allowed v [] ≡ ok es'
      → AreSound system allowed es'
  unfolding parse_listeners
  parse_listeners-AreSound none es' h = unchanged [] es' (tt, tt) h
  parse_listeners-AreSound (some null) es' h = unchanged [] es' (tt, tt) h
  parse_listeners-AreSound (some (list vs)) es' h = parse_items-AreSound vs [] es' (tt, tt) h
  parse_listeners-AreSound (some _) es' h = cc

  parse_legacy-AreSound :
      (auth : Bool) (raw : Yaml) (key type : String) (v : Option Yaml) (es es' : List Endpoint)
      → AreSound system allowed es
      → parse_legacy py system allowed auth raw key type v es ≡ ok es'
      → AreSound system allowed es'
  unfolding parse_legacy
  parse_legacy-AreSound auth raw key type none es es' s h = unchanged es es' s h
  parse_legacy-AreSound auth raw key type (some null) es es' s h = unchanged es es' s h
  parse_legacy-AreSound auth raw key type (some (int n)) es es' s h = elim (Bool-cases (n == 0)) [
    | inl e ↦ unchanged es es' s (rw e at h)
    | inr e ↦
        let (_, safe, h1) =
          bind_ok (raise_if (contains proxy_types type && not auth) invalid) _ (rw e at h) in
        let (port, found, h2) = bind_ok (port_of (some (int n))) _ h1 in
        let (address, found_at, h3) =
          bind_ok (normalize_address py (authorizes system allowed) raw) _ h2 in
        add-AreSound (inherited key type address port auth) es es' s (port_of_range _ port found)
          (normalize_address_ok _ raw address found_at)
          (asks type auth (raise_if_ok _ invalid safe)) h3
  ]
  parse_legacy-AreSound auth raw key type (some _) es es' s h = cc

  pub parse_legacies-AreSound :
      (auth : Bool) (raw : Yaml) (cfg : Entries) (keys : List (String × String))
      (es es' : List Endpoint)
      → AreSound system allowed es
      → parse_legacies py system allowed auth raw cfg keys es ≡ ok es'
      → AreSound system allowed es'
  unfolding parse_legacies
  parse_legacies-AreSound auth raw cfg [] es es' s h = unchanged es es' s h
  parse_legacies-AreSound auth raw cfg ((key, type) ∷ keys) es es' s h =
      let (next, e, h1) =
        bind_ok (parse_legacy py system allowed auth raw key type (get cfg key) es) _ h in
      parse_legacies-AreSound auth raw cfg keys next es'
        (parse_legacy-AreSound auth raw key type (get cfg key) es next s e) h1
