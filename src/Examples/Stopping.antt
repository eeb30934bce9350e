-- ===== src/Examples/Stopping.antt =====
-- A concrete process, and the theorems on `stop` of mihomoctl/identity.py applied to it.
use mihomo_userctl.Base.{
  ℕ, ◌+◌, ◌≡◌, refl, true, false, Option, none, some, [], ◌∷◌, ◌==◌, ◌&&◌, nat_eq, string_eq,
  String, ltb, if◌then◌else◌, arith, length,
}
use mihomo_userctl.Identity.{World, ProcessIdentity, found, option_eq}
use mihomo_userctl.Identity.Stop.{Watch, sigterm, stop}
use mihomo_userctl.Identity.Target.{IsKernel, Sends, stop-Sends}
use mihomo_userctl.Identity.Bound.{IsClock, IsStopped, stop_ends}

-- The core runs as process 7 under the number 5 until tick 900.
abbrev core_until : ℕ → ℕ → Option ℕ
core_until t pid = if ltb t 900 && pid == 5 then some 7 else none

abbrev number : String → Option ℕ
number s = if s == "1000" then some 1000 else some 77

abbrev pub machine : World
machine = record {
  occupant = core_until;
  stat = λ t i. found "5 (mihomo) S 1 2 3 4 5 6 7 8 9 10 11 12 13 14 15 16 17 18 77 0";
  status = λ t i. found "Name:\tmihomo\nUid:\t1000\t1000";
  exe = λ t i. found "/u/mihomo";
  cmdline = λ t i. found "/u/mihomo";
  monotonic = λ t. t;
  fds = λ t i. some (3 ∷ []);
  fd_target = λ t i n. found "socket:[99]";
  nap = λ span t. t + span;
  has_pidfd = true;
  may_open = λ t. true;
  may_signal = λ t. true;
  int_of = number;
}

abbrev pub core : ProcessIdentity
core = record { pid = 5; uid = 1000; start_time = 77; exe = "/u/mihomo"; config = none }

abbrev pub now : Watch
now = record { tick = 0; sent = [] }

pub machine-IsKernel : IsKernel machine
machine-IsKernel pid i u v x low high first last = ground arith

pub machine-IsClock : IsClock machine
machine-IsClock = record {
  forward = λ t u h. omega arith;
  slept = λ span t. omega arith;
  later = λ span t. omega arith;
}

stop-Sends_example : Sends machine core 2 now (stop machine 201 core 10000 10000 now).1
stop-Sends_example = stop-Sends machine core machine-IsKernel refl 201 10000 10000 now

stop_ends_example : IsStopped machine core now (stop machine 201 core 10000 10000 now)
stop_ends_example =
    stop_ends machine core machine-IsClock 200 10000 10000 (omega arith) (omega arith) now

one_signal : length (stop machine 201 core 10000 10000 now).1.sent ≡ 1
unfolding stop nat_eq string_eq option_eq
one_signal = refl

-- Without process descriptors a signal may reach a process that took the number after the check.
abbrev reused : World
reused = record machine {
  occupant = λ t pid. if ltb t 16 then some 7 else some 8;
  has_pidfd = false;
  may_signal = λ t. ltb t 20;
}

other_process :
    (stop reused 1 core 10000 10000 now).1.sent ≡ (record { kind = sigterm; process = 8 } ∷ [])
unfolding stop nat_eq string_eq option_eq
other_process = refl
