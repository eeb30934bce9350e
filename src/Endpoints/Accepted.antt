-- ===== src/Endpoints/Accepted.antt =====
-- What holds of every configuration that `parse_endpoints` accepts.
use mihomo_userctl.Base.{
  bind_ok, raise_if_ok, ℕ, String, ◌≡◌, ◌≤◌, Bool, true, false, Option, none, some, List, [], ◌∷◌,
  ◌||◌, string_eq, nat_eq, map, ok, raise_if, All, arith,
}
use mihomo_userctl.Trust.{Checked}
use mihomo_userctl.Yaml.{Yaml, null, text, mapping, Entries, end, get}
use mihomo_userctl.Endpoints.{Python, loopbacks, Endpoint, Controller, invalid, normal}
use mihomo_userctl.Text.{strip, is_space, is_bracket}
use mihomo_userctl.Endpoints.Parse.{
  parse_listeners, parse_legacies, legacy_keys, legacy_auth, legacy_address, on, parse_mapping,
  parse_endpoints, check_controller, controller_at, parse_controller, clashes, check_surfaces,
  at_parts, rpartition, local_name, present, is_secret,
}
use mihomo_userctl.Endpoints.Asking.{
  IsSecret, AskAll, AskAtTop, is_secret-IsSecret, parse_listeners-AskAll, parse_legacies-AskAtTop,
}
use mihomo_userctl.Endpoints.Security.{
  IsIn, AreSound, parse_listeners-AreSound, parse_legacies-AreSound,
}

-- A controller with a secret, on a loopback address and a managed port.
abbrev pub IsGuarded : Option Yaml → Option Controller → Type 0
IsGuarded secret none = Unit
IsGuarded secret (some c) =
    IsIn c.address loopbacks × (1024 ≤ c.port) × (c.port ≤ 65535) × IsSecret secret

abbrev pub AvoidsAll : Option Controller → List Endpoint → Type 0
AvoidsAll none es = Unit
AvoidsAll (some c) es = All (λ e. ¬ ((e.port ≡ c.port) × (e.address ≡ c.address))) es

check_controller-IsGuarded :
    (secret : Option Yaml) (port : Option ℕ) (host : String) (c : Option Controller)
    → check_controller secret port host ≡ ok c
    → IsGuarded secret c
check_controller-IsGuarded secret none host c h = cc
check_controller-IsGuarded secret (some p) host none h = tt
check_controller-IsGuarded secret (some p) host (some c) h =
    let secured : is_secret secret ≡ true = ground arith in
    (ground arith, ground arith, ground arith, is_secret-IsSecret secret secured)

avoids :
    (py : Python) (c : Option Controller) (es : List Endpoint)
    → clashes py c es ≡ false
    → AvoidsAll c es
avoids py none es h = tt
avoids py (some c) es h = each es h
  where
    each : (es : List Endpoint) → clashes py (some c) es ≡ false → AvoidsAll (some c) es
    each [] h = tt
    each (e ∷ es) h = (ground arith, each es (ground arith))

module _ (py : Python) where
  at_parts-IsGuarded :
      (secret : Option Yaml) (parts : Option (String × String)) (c : Option Controller)
      → at_parts py secret parts ≡ ok c
      → IsGuarded secret c
  at_parts-IsGuarded secret none c h = cc
  at_parts-IsGuarded secret (some (host, port)) c h =
      check_controller-IsGuarded secret (py.int_of port) (local_name (strip is_bracket host)) c h

  controller_at-IsGuarded :
      (secret v : Option Yaml) (c : Option Controller)
      → controller_at py secret v ≡ ok c
      → IsGuarded secret c
  unfolding controller_at
  controller_at-IsGuarded secret v none h = tt
  controller_at-IsGuarded secret none (some c) h = cc
  controller_at-IsGuarded secret (some null) (some c) h = cc
  controller_at-IsGuarded secret (some (text raw)) (some c) h =
      at_parts-IsGuarded secret (rpartition (strip is_space raw)) (some c) h
  controller_at-IsGuarded secret (some _) (some c) h = cc

  parse_controller-IsGuarded :
      (cfg : Entries) (c : Option Controller)
      → parse_controller py cfg ≡ ok c
      → IsGuarded (get cfg "secret") c
  unfolding parse_controller
  parse_controller-IsGuarded cfg c h =
      let (_, _, h1) =
        bind_ok
          (raise_if
            (present (get cfg "external-controller-unix")
              || present (get cfg "external-controller-tls"))
            invalid)
          _ h in
      controller_at-IsGuarded (get cfg "secret") (get cfg "external-controller") c h1

  module _ (system : Bool) (allowed : List String) where
    abbrev pub IsAccepted : Entries → List Endpoint → Option Controller → Type 0
    IsAccepted cfg es c =
        AreSound system allowed es
        × IsGuarded (get cfg "secret") c
        × AvoidsAll c es
        × AskAll (get cfg "listeners")
        × AskAtTop cfg legacy_keys

    IsAccepted-same :
        (cfg : Entries) (es es' : List Endpoint) (c c' : Option Controller)
        → ◌≡◌ {A = Checked (List Endpoint × Option Controller)} (ok (es, c)) (ok (es', c'))
        → IsAccepted cfg es c
        → IsAccepted cfg es' c'
    IsAccepted-same cfg es es' c c' h a =
        let e : es ≡ es' = ground arith in let e' : c ≡ c' = ground arith in rw (← e, ← e') a

    parse_mapping-IsAccepted :
        (cfg : Entries) (es : List Endpoint) (c : Option Controller)
        → parse_mapping py system allowed cfg ≡ ok (es, c)
        → IsAccepted cfg es c
    unfolding parse_mapping
    parse_mapping-IsAccepted cfg es c h =
        let (_, _, h1) = bind_ok (check_surfaces py system cfg) _ h in
        let (named, listed, h2) =
          bind_ok (parse_listeners py system allowed (get cfg "listeners") []) _ h1 in
        let (auth, authenticated, h3) = bind_ok (legacy_auth (get cfg "authentication")) _ h2 in
        let raw = legacy_address (on py cfg "allow-lan") (get cfg "bind-address") in
        let (all, legacy, h4) =
          bind_ok (parse_legacies py system allowed auth raw cfg legacy_keys named) _ h3 in
        let (found, controlled, h5) = bind_ok (parse_controller py cfg) _ h4 in
        let (_, apart, h6) = bind_ok (raise_if (clashes py found all) invalid) _ h5 in
        let sound =
          parse_legacies-AreSound py system allowed auth raw cfg legacy_keys named all
            (parse_listeners-AreSound py system allowed (get cfg "listeners") named listed)
            legacy in
        let guarded = parse_controller-IsGuarded cfg found controlled in
        let free = avoids py found all (raise_if_ok _ invalid apart) in
        let listeners_ask =
          parse_listeners-AskAll py system allowed (get cfg "listeners") [] named listed in
        let ports_ask =
          parse_legacies-AskAtTop py system allowed auth raw cfg legacy_keys named all authenticated
            legacy in
        IsAccepted-same cfg all es found c h6 (sound, guarded, free, listeners_ask, ports_ask)

-- The mapping that a document is; an empty document is an empty one.
abbrev pub document_of : Yaml → Entries
document_of (mapping cfg) = cfg
document_of _ = end

-- Every accepted configuration has endpoints on managed ports, each on a loopback address or, in
-- system scope, on an authorized one, whose proxies ask for credentials, and which differ pairwise
-- in name and in what they bind; and at most a controller on a loopback address and a managed port
-- that no endpoint binds, and then the document has a secret of 32 to 256 letters, digits, dashes
-- and underscores. Each listener of the document that is a proxy has at least one user, all of them
-- with a name that is not empty and a password; and where a top-level port of a proxy is set, the
-- document has at least one top-level login, all of them a name and a password.
pub parse_endpoints-IsAccepted :
    (py : Python) (system : Bool) (allowed : List String) (v : Yaml) (es : List Endpoint)
    (c : Option Controller)
    → parse_endpoints py system allowed v ≡ ok (es, c)
    → IsAccepted py system (map (normal py) allowed) (document_of v) es c
unfolding parse_endpoints
parse_endpoints-IsAccepted py system allowed null es c h =
    parse_mapping-IsAccepted py system (map (normal py) allowed) end es c h
parse_endpoints-IsAccepted py system allowed (mapping cfg) es c h =
    parse_mapping-IsAccepted py system (map (normal py) allowed) cfg es c h
parse_endpoints-IsAccepted py system allowed _ es c h = cc
