-- ===== src/Examples/Managed.antt =====
-- A core that the process backend started, and the theorems on mihomoctl/lifecycle/process.py applied
-- to it.
use mihomo_userctl.Base.{
  Option, if◌then◌else◌, ◌==◌, ℕ, ◌≡◌, refl, String, true, false, none, some, List, [], ◌∷◌, ok,
  nat_eq, string_eq, arith,
}
use mihomo_userctl.Base.Dict
use mihomo_userctl.Files.{FilePath, Bytes, path_eq, Meta, file, dir, Files, Os, lstat, exists}
use mihomo_userctl.Trust.{check_ancestors, make_dirs, missing_from}
use mihomo_userctl.Yaml.{Yaml, mapping}
use mihomo_userctl.Identity.{World, found, option_eq}
use mihomo_userctl.Ports.{Net}
use mihomo_userctl.Backend.{Core, validate, payload}
use mihomo_userctl.Credentials.{Refused}
use mihomo_userctl.Backend.Store.{Place, read_state, write_state, decoded}
use mihomo_userctl.Backend.Written.{write_state-validate}
use mihomo_userctl.Backend.Receipt.{IsReceipt}
use mihomo_userctl.Backend.Lifecycle.{Site, stop, status}
use mihomo_userctl.Backend.Held.{IsHeld, stop-IsHeld}
use mihomo_userctl.Backend.Cleared.{stop_clears}
use mihomo_userctl.Backend.Observed.{IsRunning, status_running}
use mihomo_userctl.Examples.Stopping.{machine, core, now, machine-IsKernel}
use mihomo_userctl.Examples.Listening.{net, proxy, listens}

abbrev selected : Core
selected = record { binary = some "/u/mihomo"; config = none; resolve = λ s. s; uid = 1000 }

core-IsReceipt : IsReceipt selected core
unfolding nat_eq
core-IsReceipt = record {
  pid = omega arith;
  uid = refl;
  start_time = omega arith;
  absolute = refl;
  selected = ("/u/mihomo", refl, refl);
  config = refl;
}

abbrev at : List String → FilePath
at parts = record { absolute = true; parts = parts }

abbrev reads : Bytes → Option Yaml
reads (n ∷ []) = if n == 123 then some (mapping (payload selected core 9)) else none
reads _ = none

abbrev place : Place
place = record {
  state_root = at ("state" ∷ "u" ∷ []);
  runtime_state = at ("runtime.json" ∷ "state" ∷ "u" ∷ []);
  dumps = λ d. 123 ∷ [];
  loads = reads;
}

abbrev user_meta : ℕ → Meta
user_meta mode = record { mode = mode; uid = 1000; gid = 1000 }

abbrev files : Files
files =
    (at [], dir (user_meta 0o755))
    ∷ (at ("u" ∷ []), dir (user_meta 0o700))
    ∷ (at ("state" ∷ "u" ∷ []), dir (user_meta 0o700))
    ∷ (at ("runtime.json" ∷ "state" ∷ "u" ∷ []), file (123 ∷ []) (user_meta 0o600))
    ∷ []

abbrev os : Os
os = record { uid = 1000; gid = 1000; resolves = λ fs p. false }

abbrev granted : Refused
granted = record { at_temp = false; at_replace = false; at_sync = false; at_unlink = false }

abbrev site : Site
site = record { files = files; watch = now }

stop-IsHeld_example :
    IsHeld os selected place machine
      (read_state os selected place files)
      site
      (stop machine net os selected place 201 granted [] site).1
stop-IsHeld_example =
    stop-IsHeld os selected place machine net machine-IsKernel refl 201 granted [] site

stop_clears_example :
    lstat (stop machine net os selected place 201 granted [] site).1.files place.runtime_state
    ≡ none
unfolding stop path_eq nat_eq string_eq option_eq Dict.get check_ancestors payload
stop_clears_example =
    stop_clears os selected place machine net 201 granted [] true site
      (stop machine net os selected place 201 granted [] site).1 refl

-- The sockets of the core, at every tick.
abbrev listening : Net
listening = record net { tcp = λ t. found listens }

status_running_example :
    IsReceipt selected core × IsRunning machine listening os selected place core (proxy ∷ [])
unfolding status path_eq nat_eq string_eq option_eq Dict.get check_ancestors payload
status_running_example =
    status_running machine listening os selected place (proxy ∷ []) core site
      (status machine listening os selected place (proxy ∷ []) site).1 refl

-- Another process has the number.
abbrev stolen : World
stolen = record machine { status = λ t i. found "Uid:\t0\t0"; int_of = λ s. some 0 }

abbrev rewritten : Files
rewritten = (write_state os selected place granted core 9 files).1

write_state-validate_example :
    (lstat rewritten place.runtime_state ≡ some (file (123 ∷ []) (user_meta 0o600)))
    × (validate selected (decoded os selected place (lstat rewritten place.runtime_state))
        ≡ ok core)
unfolding write_state path_eq nat_eq string_eq Dict.get check_ancestors make_dirs missing_from
    exists
write_state-validate_example =
    write_state-validate os selected place granted core 9 files rewritten refl core-IsReceipt
      (omega arith) refl
