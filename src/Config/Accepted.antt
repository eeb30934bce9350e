-- ===== src/Config/Accepted.antt =====
-- What `parse_manager` of mihomoctl/config.py accepts.
use mihomo_userctl.Base.{
  String, ◌≡◌, ◌≢◌, inl, inr, string_eq, Bool, true, not, Option, none, some, List, [], ◌∷◌,
  contains, ok, raise_if, All, bind_ok, raise_if_ok, ok_injective, Bool-cases,
}
use mihomo_userctl.Files.{FilePath}
use mihomo_userctl.Yaml.{Yaml, mapping, Entries, get, has_only, truthy, section}
use mihomo_userctl.Endpoints.{invalid}
use mihomo_userctl.Config.{Profile, CoreSettings, Manager, Paths, parse_tun, require_abs}
use mihomo_userctl.Config.Parse.{
  parse_profiles, parse_bindings, allow_non_loopback, some_section, is_version, backend_of,
  default_of, is_empty, core_path, parse_core, names, parse_document, is_in_scope,
  check_scope_paths, parse_manager,
}
use mihomo_userctl.Config.Parts.{IsProfile, IsSafePath, parse_profiles-IsProfile, require_abs_ok}
use mihomo_userctl.Config.Valid.{
  IsBinding, parse_bindings-IsBinding, IsTun, parse_tun-IsTun, allow_non_loopback_ok, IsBackend,
  backend_of_ok, is_not,
}

module _ (paths : Paths) where
  -- The paths of the core are safe, and its backend is one of the scope.
  pub record IsCore (system : Bool) (c : CoreSettings) : Type 0 where
    pub binary : IsSafePath paths c.binary
    pub config : IsSafePath paths c.config
    pub backend : IsBackend system c.backend

  core_path_ok :
      (v : Option Yaml) (o : Option String) → core_path paths v ≡ ok o → IsSafePath paths o
  core_path_ok none o h = rw (← ok_injective h) tt
  core_path_ok (some v) o h = elim (Bool-cases (truthy (some v))) [
    | inl e ↦
        let (s, read, h1) = bind_ok (require_abs paths v) (λ s. ok (some s)) (rw e at h) in
        rw (← ok_injective h1) (require_abs_ok paths v s read)
    | inr e ↦ rw (← ok_injective (rw e at h)) tt
  ]

  parse_core-IsCore :
      (system : Bool) (d : Entries) (c : CoreSettings)
      → parse_core paths system d ≡ ok c
      → IsCore system c
  unfolding parse_core
  parse_core-IsCore system d c h =
      let (_, _, h1) =
        bind_ok
          (raise_if (not (has_only ("binary" ∷ "config" ∷ "backend" ∷ "adopted" ∷ []) d)) invalid) _
          h in
      let (binary, at_binary, h2) = bind_ok (core_path paths (get d "binary")) _ h1 in
      let (config, at_config, h3) = bind_ok (core_path paths (get d "config")) _ h2 in
      let (backend, by, h4) = bind_ok (backend_of system (get d "backend")) _ h3 in
      rw (← ok_injective h4) (record {
        binary = core_path_ok (get d "binary") binary at_binary;
        config = core_path_ok (get d "config") config at_config;
        backend = backend_of_ok system (get d "backend") backend by;
      })

  -- A document whose parts are good and agree with each other.
  pub record IsManager (system : Bool) (m : Manager) : Type 0 where
    pub core : IsCore system m.core
    pub default : contains (names paths m.profiles) m.default_profile ≡ true
    pub profiles : All (IsProfile paths) m.profiles
    pub bindings : All (IsBinding (names paths m.profiles)) m.bindings
    pub tun : IsTun system m.tun
    pub local : m.allow_non_loopback ≢ [] → system ≡ true

  abbrev document_keys : List String
  document_keys =
      "version" ∷ "core" ∷ "default_profile" ∷ "profiles" ∷ "bindings" ∷ "tun"
      ∷ "allow_non_loopback" ∷ []

  parse_document-IsManager :
      (system : Bool) (d : Entries) (m : Manager)
      → parse_document paths system d ≡ ok m
      → IsManager system m
  unfolding parse_document
  parse_document-IsManager system d m h =
      let (_, _, h1) = bind_ok (raise_if (not (has_only document_keys d)) invalid) _ h in
      let (_, _, h2) = bind_ok (raise_if (not (is_version (get d "version"))) invalid) _ h1 in
      let (core, _, h3) = bind_ok (some_section (section d "core")) _ h2 in
      let (settings, cored, h4) = bind_ok (parse_core paths system core) _ h3 in
      let (default, _, h5) = bind_ok (default_of (get d "default_profile")) _ h4 in
      let (found, _, h6) = bind_ok (some_section (section d "profiles")) _ h5 in
      let (_, _, h7) = bind_ok (raise_if (is_empty found) invalid) _ h6 in
      let (profiles, listed, h8) = bind_ok (parse_profiles paths found) _ h7 in
      let (_, known, h9) =
        bind_ok (raise_if (not (contains (names paths profiles) default)) invalid) _ h8 in
      let (bound, _, h10) = bind_ok (some_section (section d "bindings")) _ h9 in
      let (bindings, tied, h11) = bind_ok (parse_bindings (names paths profiles) bound) _ h10 in
      let (tun, tunnel, h12) = bind_ok (parse_tun system (get d "tun")) _ h11 in
      let (allowed, opened, h13) =
        bind_ok (allow_non_loopback system (get d "allow_non_loopback")) _ h12 in
      rw (← ok_injective h13) (record {
        core = parse_core-IsCore system core settings cored;
        default = is_not (raise_if_ok _ invalid known);
        profiles = parse_profiles-IsProfile paths found profiles listed;
        bindings = parse_bindings-IsBinding (names paths profiles) bound bindings tied;
        tun = parse_tun-IsTun system (get d "tun") tun tunnel;
        local = allow_non_loopback_ok system (get d "allow_non_loopback") allowed opened;
      })

  module _ (system : Bool) (config_root : FilePath) (private_roots : List FilePath) where
    abbrev pub IsInScope : Profile → Type 0
    IsInScope p = is_in_scope paths system config_root private_roots p.credentials_file ≡ true

    check_scope_paths_ok :
        (ps : List Profile) (u : Unit)
        → check_scope_paths paths system config_root private_roots ps ≡ ok u
        → All IsInScope ps
    unfolding check_scope_paths
    check_scope_paths_ok [] u h = tt
    check_scope_paths_ok (p ∷ ps) u h =
        let (_, inside, h1) =
          bind_ok
            (raise_if (not (is_in_scope paths system config_root private_roots p.credentials_file))
              invalid)
            _ h in
        (is_not (raise_if_ok _ invalid inside), check_scope_paths_ok ps u h1)

    -- A document that is accepted names a profile that it defines as the default one, and its
    -- bindings name profiles that it defines. Each profile and binding is well formed, with a
    -- credentials file of the scope. Only the system scope has a TUN device or addresses that are not
    -- loopback ones, and the backend is one of the scope.
    pub parse_manager_accepts :
        (v : Yaml) (m : Manager)
        → parse_manager paths system config_root private_roots v ≡ ok m
        → IsManager system m × All IsInScope m.profiles
    unfolding parse_manager
    parse_manager_accepts (mapping d) m h =
        let (read, document, h1) = bind_ok (parse_document paths system d) _ h in
        let (_, inside, h2) =
          bind_ok (check_scope_paths paths system config_root private_roots read.profiles) _ h1 in
        rw (← ok_injective h2) (
          parse_document-IsManager system d read document,
          check_scope_paths_ok read.profiles tt inside,
        )
    parse_manager_accepts _ m h = cc
