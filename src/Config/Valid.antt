-- ===== src/Config/Valid.antt =====
-- What holds of every document that `parse_manager` of mihomoctl/config.py accepts.
use mihomo_userctl.Base.{
  String, ◌≡◌, ◌≢◌, ◌⊎◌, refl, sym, inl, inr, Bool, true, false, not, Option, none, some, List, [],
  ◌∷◌, string_eq, nat_eq, contains, if◌then◌else◌, ok, raise, raise_if, All, arith, bind_ok,
  raise_if_ok, ok_injective, Bool-cases,
}
use mihomo_userctl.Text.{all_chars}
use mihomo_userctl.Trust.{Checked}
use mihomo_userctl.Yaml.{
  Yaml, null, text, bool, mapping, Entries, end, entry, get, has_only, truthy,
}
use mihomo_userctl.Endpoints.{invalid}
use mihomo_userctl.Config.{
  Binding, TunSettings, parse_tun, is_device, enabled_of, device_of, is_name, require_name,
  is_unit_name, is_connect_host,
}
use mihomo_userctl.Config.Parse.{
  text_of, optional, is_adapter, target_of, parse_binding, parse_bindings, allow_non_loopback,
  backend_of,
}
use mihomo_userctl.Config.Parts.{require_name_ok}

-- A text that passes the test, if there is one.
abbrev pub IsOptional : (String → Bool) → Option String → Type 0
IsOptional good none = Unit
IsOptional good (some s) = good s ≡ true

-- A binding of one of the profiles, whose target names a unit where systemd is asked.
pub record IsBinding (profiles : List String) (b : Binding) : Type 0 where
  pub named : is_name b.name ≡ true
  pub known : contains profiles b.profile ≡ true
  pub adapted : is_adapter b.adapter ≡ true
  pub unit : b.adapter ≡ "systemd" → (s : String) × (b.target ≡ some s) × (is_unit_name s ≡ true)
  pub reachable : IsOptional is_connect_host b.connect_host

-- The TUN device, which only the system scope enables.
pub record IsTun (system : Bool) (t : TunSettings) : Type 0 where
  pub allowed : t.enabled ≡ true → system ≡ true
  pub usable : is_device t.device ≡ true

-- The system scope uses systemd; a user may run the core as a process.
abbrev pub IsBackend : Bool → String → Type 0
IsBackend system s = (s ≡ "systemd") ⊎ ((system ≡ false) × (s ≡ "process"))

optional_ok :
    (good : String → Bool) (v : Option Yaml) (o : Option String)
    → optional good v ≡ ok o
    → IsOptional good o
optional_ok good none o h = rw (← ok_injective h) tt
optional_ok good (some null) o h = rw (← ok_injective h) tt
optional_ok good (some (text s)) o h = elim (Bool-cases (good s)) [
  | inl e ↦ rw (← ok_injective (rw e at h)) e
  | inr e ↦ absurd (cc (rw e at h))
]
optional_ok good (some _) o h = cc

abbrev unit_of : String → Checked (Option String)
unit_of s = if is_unit_name s then ok (some s) else raise invalid

target_of_unit :
    (v : Option Yaml) (o : Option String)
    → target_of "systemd" v ≡ ok o
    → (s : String) × (o ≡ some s) × (is_unit_name s ≡ true)
unfolding target_of string_eq
target_of_unit v o h =
    let (s, _, h1) = bind_ok (text_of v) unit_of h in
    elim (Bool-cases (is_unit_name s)) [
      | inl e ↦ (s, sym (ok_injective (rw e at h1)), e)
      | inr e ↦ absurd (cc (rw e at h1))
    ]

target_of_adapter :
    (adapter : String) (v : Option Yaml) (o : Option String)
    → target_of adapter v ≡ ok o
    → adapter ≡ "systemd"
    → (s : String) × (o ≡ some s) × (is_unit_name s ≡ true)
target_of_adapter adapter v o h e = target_of_unit v o (rw e at h)

pub is_not : {b : Bool} → not b ≡ false → b ≡ true
is_not {b} h = ground arith

parse_binding-IsBinding :
    (profiles : List String) (key : String) (v : Yaml) (b : Binding)
    → parse_binding profiles key v ≡ ok b
    → IsBinding profiles b
unfolding parse_binding
parse_binding-IsBinding profiles key (mapping d) b h =
    let (name, named, h1) = bind_ok (require_name key) _ h in
    let (_, _, h2) =
      bind_ok
        (raise_if (not (has_only ("profile" ∷ "adapter" ∷ "target" ∷ "connect_host" ∷ []) d))
          invalid)
        _ h1 in
    let (profile, _, h3) = bind_ok (text_of (get d "profile")) _ h2 in
    let (_, known, h4) = bind_ok (raise_if (not (contains profiles profile)) invalid) _ h3 in
    let (adapter, _, h5) = bind_ok (text_of (get d "adapter")) _ h4 in
    let (_, adapted, h6) = bind_ok (raise_if (not (is_adapter adapter)) invalid) _ h5 in
    let (target, aimed, h7) = bind_ok (target_of adapter (get d "target")) _ h6 in
    let (host, reached, h8) = bind_ok (optional is_connect_host (get d "connect_host")) _ h7 in
    rw (← ok_injective h8) (record {
      named = require_name_ok key name named;
      known = is_not (raise_if_ok _ invalid known);
      adapted = is_not (raise_if_ok _ invalid adapted);
      unit = target_of_adapter adapter (get d "target") target aimed;
      reachable = optional_ok is_connect_host (get d "connect_host") host reached;
    })
parse_binding-IsBinding profiles key _ b h = cc

pub parse_bindings-IsBinding :
    (profiles : List String) (d : Entries) (bs : List Binding)
    → parse_bindings profiles d ≡ ok bs
    → All (IsBinding profiles) bs
unfolding parse_bindings
parse_bindings-IsBinding profiles end bs h = rw (← ok_injective h) tt
parse_bindings-IsBinding profiles (entry name v d) bs h =
    let (b, first, h1) = bind_ok (parse_binding profiles name v) _ h in
    let (cs, others, h2) = bind_ok (parse_bindings profiles d) _ h1 in
    rw (← ok_injective h2) (
      parse_binding-IsBinding profiles name v b first,
      parse_bindings-IsBinding profiles d cs others,
    )

enabled_of_ok :
    (system : Bool) (v : Option Yaml) (b : Bool)
    → enabled_of system v ≡ ok b
    → b ≡ true
    → system ≡ true
enabled_of_ok system none b h on = cc
enabled_of_ok true (some (bool c)) b h on = refl
enabled_of_ok false (some (bool true)) b h on = cc
enabled_of_ok false (some (bool false)) b h on = cc
enabled_of_ok system (some _) b h on = cc

device_of_ok : (v : Option Yaml) (s : String) → device_of v ≡ ok s → is_device s ≡ true
unfolding nat_eq string_eq all_chars
device_of_ok none s h = rw (← ok_injective h) refl
device_of_ok (some (text t)) s h = elim (Bool-cases (is_device t)) [
  | inl e ↦ rw (← ok_injective (rw e at h)) e
  | inr e ↦ absurd (cc (rw e at h))
]
device_of_ok (some _) s h = cc

default-IsTun : (system : Bool) → IsTun system (record { enabled = false; device = "mihomo0" })
default-IsTun system = record { allowed = λ e. cc; usable = device_of_ok none "mihomo0" refl }

pub parse_tun-IsTun :
    (system : Bool) (v : Option Yaml) (t : TunSettings) → parse_tun system v ≡ ok t → IsTun system t
unfolding parse_tun
parse_tun-IsTun system none t h = rw (← ok_injective h) (default-IsTun system)
parse_tun-IsTun system (some null) t h = rw (← ok_injective h) (default-IsTun system)
parse_tun-IsTun system (some (mapping d)) t h =
    let (_, _, h1) =
      bind_ok (raise_if (not (has_only ("enabled" ∷ "device" ∷ []) d)) invalid) _ h in
    let (enabled, on, h2) = bind_ok (enabled_of system (get d "enabled")) _ h1 in
    let (device, named, h3) = bind_ok (device_of (get d "device")) _ h2 in
    rw (← ok_injective h3) (record {
      allowed = enabled_of_ok system (get d "enabled") enabled on;
      usable = device_of_ok (get d "device") device named;
    })
parse_tun-IsTun system (some _) t h = cc

pub allow_non_loopback_ok :
    (system : Bool) (v : Option Yaml) (ss : List String)
    → allow_non_loopback system v ≡ ok ss
    → ss ≢ []
    → system ≡ true
unfolding allow_non_loopback
allow_non_loopback_ok true v ss h any = refl
allow_non_loopback_ok false v ss h any = elim (Bool-cases (truthy v)) [
  | inl e ↦ absurd (cc (rw e at h))
  | inr e ↦ absurd (any (sym (ok_injective (rw e at h))))
]

pub backend_of_ok :
    (system : Bool) (v : Option Yaml) (s : String) → backend_of system v ≡ ok s → IsBackend system s
backend_of_ok true v s h = inl (sym (ok_injective h))
backend_of_ok false none s h = inr (refl, sym (ok_injective h))
backend_of_ok false (some (text t)) s h = ground arith
backend_of_ok false (some _) s h = cc
