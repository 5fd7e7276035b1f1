-- ===== src/Orchestrator/Firecracker/Examples.antt =====
-- A host for runs of the Firecracker runtime: it has a clock, a mount table and the file /etc/hosts;
-- commands and files always succeed, but for umount where something is busy, and nothing answers on the
-- network.
use open_e2b.Prelude.{
  ℕ, ◌+◌, Bool, true, false, ◌&&◌, Bool-cases, inl, inr, String, ◌==◌, string_eq, List, [], ◌∷◌,
  ◌++◌, none, some, refl, sym, ap, arith, if◌then◌else◌,
}
use Prim.Native.Char.{code}
use Prim.Native.String.{◌++◌ as ◌<>◌}
use open_e2b.Prelude.Int.{pos}
use open_e2b.Prelude.Bytes.{Bytes}
use open_e2b.Prelude.Action.{Outcome, done, failed, Output}
use open_e2b.Orchestrator.Firecracker.{Os, Sdk, found, Host, new_firecracker_runtime}
use open_e2b.Orchestrator.Firecracker.Hosts.Laws.{HasFile}
use open_e2b.Orchestrator.Firecracker.Wait.Laws.{IsClock}
use open_e2b.Orchestrator.Firecracker.Mounts.{Mounted, IsStill, IsMountTable}

pub record World : Type 0 where
  pub hosts : Bytes
  pub clock : ℕ
  pub mounts : List Mounted
  pub busy : Bool

abbrev pub codes : String → Bytes
codes String.[] = []
codes (String.◌∷◌ c s) = code c ∷ codes s

abbrev joined : List String → String
joined [] = ""
joined (p ∷ ps) = "/" <> p <> joined ps

abbrev added : List String → List Mounted → List Mounted
added (o ∷ l ∷ path ∷ mount ∷ []) ms = record { point = mount; stale = false } ∷ ms
added other ms = ms

abbrev rest_of : List Mounted → List Mounted
rest_of [] = []
rest_of (m ∷ ms) = ms

abbrev left_behind : List Mounted → List Mounted
left_behind [] = []
left_behind (m ∷ ms) = record m { stale = true } ∷ ms

abbrev table_after : String → List String → List Mounted → List Mounted
table_after name args ms =
    if name == "mount" then added args ms else if name == "umount" then rest_of ms else ms

abbrev well : Output
well = record { text = ""; error = none }

abbrev target_busy : Output
target_busy = record { text = "target is busy"; error = some "exit status 32" }

abbrev run_on : String → List String → World → Output × World
run_on name args w =
    if w.busy && name == "umount"
    then (target_busy, record w { mounts = left_behind w.mounts })
    else (well, record w { mounts = table_after name args w.mounts })

abbrev pub sys : Os World
sys = record {
  run = run_on;
  output = λ name args w. (well, w);
  now = λ w. (pos w.clock, w);
  sleep = λ d w. record w { clock = w.clock + d };
  context_error = λ w. (none, w);
  dial = λ addr w. (some "refused", w);
  look_path = λ name w. (done ("/bin/" <> name), w);
  stat = λ path w. (found, w);
  mkdir_all = λ path w. (none, w);
  create_file = λ path w. (none, w);
  close_file = λ path w. w;
  read_file = λ path w. (done w.hosts, w);
  write_file = λ path text w. (none, record w { hosts = text });
  open_append = λ path w. (none, w);
  append_open = λ path text w. (none, record w { hosts = w.hosts ++ text });
  rename = λ a b w. (none, w);
  remove = λ path w. w;
  remove_all = λ path w. w;
  symlink = λ a b w. w;
  chmod = λ path w. w;
  join = joined;
  dir = λ path. path;
  bytes = codes;
  show_duration = λ d. "1m0s";
}

abbrev text_of : Outcome Bytes → Bytes
text_of (done t) = t
text_of (failed e) = []

pub sys-HasFile : HasFile sys (λ w. w.hosts)
sys-HasFile = record {
  opens = λ w. refl;
  appends = λ text w e. refl;
  reads = λ text w e. (sym (ap text_of e), refl);
  writes = λ text w e. refl;
}

pub sys-IsClock : IsClock sys (λ w. w.clock)
sys-IsClock = record {
  reads = λ w. (refl, ground arith);
  sleeps = λ d w. ground arith;
  checks = λ w. ground arith;
  dials = λ addr w. ground arith;
}

sys-IsStill : IsStill sys (λ w. w.mounts)
sys-IsStill = record {
  running = λ name args w a b.
      rw (a, b) (elim (Bool-cases w.busy) [ inl e ↦ rw e refl | inr e ↦ rw e refl ]);
  output = λ name args w. refl;
  mkdir_all = λ path w. refl;
  write_file = λ path text w. refl;
  stat = λ path w. refl;
  rename = λ a b w. refl;
  remove = λ path w. refl;
  remove_all = λ path w. refl;
  symlink = λ a b w. refl;
  chmod = λ path w. refl;
}

pub sys-IsMountTable : IsMountTable sys (λ w. w.mounts)
sys-IsMountTable = record {
  still = sys-IsStill;
  mounting = λ path mount w e. elim (Bool-cases w.busy) [ inl b ↦ rw b refl | inr b ↦ rw b refl ];
  not_mounting = λ path mount f w e. elim (Bool-cases w.busy) [
    | inl b ↦ absurd (ground arith)
    | inr b ↦ absurd (ground arith)
  ];
  unmounting = λ mount es w top e. elim (Bool-cases w.busy) [
    | inl b ↦ absurd (ground arith)
    | inr b ↦ rw (b, top) refl
  ];
  not_unmounting = λ mount f es w top e. elim (Bool-cases w.busy) [
    | inl b ↦ inr (rw (b, top) refl)
    | inr b ↦ absurd (ground arith)
  ];
}

-- A machine of the SDK is a number.
abbrev pub sdk : Sdk World ℕ
sdk = record {
  new_machine = λ c w. (done 1, w);
  start = λ vm w. (none, w);
  address = λ vm w. ("10.0.0.2", w);
  stop_vmm = λ vm w. (none, w);
  shutdown = λ vm w. (none, w);
  pause_vm = λ vm w. (none, w);
  create_snapshot = λ vm mem state w. (none, w);
  resume_vm = λ vm w. (some "not paused", w);
}

abbrev pub host_0 : Host World ℕ
host_0 =
    new_firecracker_runtime sys "/artifacts" "/sandboxes"
      (record { hosts = []; clock = 0; mounts = []; busy = false })
