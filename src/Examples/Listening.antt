-- ===== src/Examples/Listening.antt =====
-- Concrete tables of sockets, and the theorems on mihomoctl/lifecycle/ports.py applied to them.
use mihomo_userctl.Base.{
  ℕ, refl, ◌≢◌, ok, arith, String, Bool, true, false, Option, none, some, [], ◌∷◌, ◌==◌, nat_eq,
  string_eq, ltb, All, if◌then◌else◌,
}
use mihomo_userctl.Endpoints.{Endpoint}
use mihomo_userctl.Identity.{found, missing}
use mihomo_userctl.Ports.{Net}
use mihomo_userctl.Ports.Wait.{check_ports_free, wait_listening}
use mihomo_userctl.Ports.Free.{IsFree, check_ports_free_ok}
use mihomo_userctl.Ports.Ended.{wait_listening_ends}
use mihomo_userctl.Examples.Stopping.{machine, core, machine-IsClock}

abbrev int16 : String → Option ℕ
int16 s = if s == "0100007F" then some 16777343 else some 7890

abbrev pub listens : String
listens = "sl local\n0: 0100007F:1ED2 00000000:0000 0A 0 0 0 1000 0 99 1\n"

-- The core listens from tick 20 on.
abbrev pub net : Net
net = record {
  tcp = λ t. if ltb t 20 then found "sl local\n" else found listens;
  tcp6 = λ t. missing;
  int16 = int16;
  int10 = λ s. some 1000;
  ntop4 = λ bytes. "127.0.0.1";
  ntop6 = λ bytes. "::1";
  aton = λ s. some (127 ∷ 0 ∷ 0 ∷ 1 ∷ []);
  pton6 = λ s. none;
}

abbrev pub proxy : Endpoint
proxy = record {
  name = "main";
  source = "listeners";
  type = "mixed";
  address = "127.0.0.1";
  port = 7890;
  legacy = false;
  authenticated = true;
}

abbrev can_bind : ℕ → String → ℕ → Bool
can_bind t address port = true

check_ports_free_ok_example : All (IsFree machine net can_bind) (proxy ∷ [])
unfolding check_ports_free nat_eq string_eq
check_ports_free_ok_example = check_ports_free_ok machine net can_bind (proxy ∷ []) 0 3 refl

wait_listening_ends_example :
    (wait_listening machine net 301 (proxy ∷ []) 1000 30000 core 0).0 ≢ ok none
wait_listening_ends_example =
    wait_listening_ends machine net core 1000 machine-IsClock 300 30000 (proxy ∷ []) 0 (omega arith)
