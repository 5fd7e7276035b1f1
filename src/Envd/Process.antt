-- ===== src/Envd/Process.antt =====
-- pkg/envd/process/service.go: the table of running processes. What the operating system answers
-- (pipes, the start of the command, a write, a signal) is an argument. The values behind the pointers
-- of `Process` stand for them: a process is its info and whether it has a standard input.
pub mod Index
use open_e2b.Prelude.{
  ℕ, String, Bool, true, false, List, [], Option, none, some, map, string_eq, nat_eq,
}
use open_e2b.Prelude.GoMap.{GoMap, get, put, remove}
use open_e2b.Prelude.GoMap.Range.{Order, range}

pub record ProcessConfig : Type 0 where
  pub cmd : String
  pub args : List String
  pub envs : GoMap String String
  pub cwd : Option String

pub record ProcessInfo : Type 0 where
  pub config : ProcessConfig
  pub pid : ℕ
  pub tag : Option String

pub record Process : Type 0 where
  pub info : ProcessInfo
  pub has_stdin : Bool

pub record Service : Type 0 where
  pub processes : GoMap ℕ Process
  pub tag_index : GoMap String Process

unfoldable pub new_service : Service
new_service = record { processes = []; tag_index = [] }

unfoldable pub list : Order → Service → List ProcessInfo
list o s = map (λ (p : ℕ × Process). p.1.info) (range o s.processes)

abbrev pub index_tag : Option String → Process → GoMap String Process → GoMap String Process
index_tag none p m = m
index_tag (some t) p m = put m t p

abbrev pub drop_tag : Option String → GoMap String Process → GoMap String Process
drop_tag none m = m
drop_tag (some t) m = remove m t

-- The registration in `Start`, under the lock.
unfoldable pub register : Process → Service → Service
register p s = record {
  processes = put s.processes p.info.pid p;
  tag_index = index_tag p.info.tag p s.tag_index;
}

-- What the goroutine of `Start` does under the lock when the process has ended.
unfoldable pub finish : Process → Service → Service
finish p s = record {
  processes = remove s.processes p.info.pid;
  tag_index = drop_tag p.info.tag s.tag_index;
}

-- `Start`: the system has started the command under a process ID, or it has failed with an error.
pub data Started : Type 0 where
  pid : ℕ → Started
  failed : String → Started

unfoldable pub start :
    ProcessConfig → Option String → Bool → Started → Service → Option Process × Service
start config tag stdin (failed e) s = (none, s)
start config tag stdin (pid n) s =
    let p : Process = record {
      info = record { config = config; pid = n; tag = tag };
      has_stdin = stdin;
    } in
    (some p, register p s)

abbrev pub lookup_pid : Option ℕ → Service → Option Process
lookup_pid none s = none
lookup_pid (some n) s = get s.processes n

abbrev pub lookup_tag : Option String → Service → Option Process
lookup_tag none s = none
lookup_tag (some t) s = get s.tag_index t

-- By process ID, else by tag; none is `os.ErrNotExist`.
unfoldable pub connect : Option ℕ → Option String → Service → Option Process
connect n tag s = elim (lookup_pid n s) [ some p ↦ some p | none ↦ lookup_tag tag s ]

-- The answer of `SendInput`; `wrote` is what the system answers, none for nil.
pub data Sent : Type 0 where
  not_exist invalid : Sent
  answered : Option String → Sent

abbrev write_to : (Process → Option String) → Process → Bool → Sent
write_to wrote p false = invalid
write_to wrote p true = answered (wrote p)

unfoldable pub send_input : (Process → Option String) → Option ℕ → Option String → Service → Sent
send_input wrote n tag s = elim (connect n tag s) [
  | none ↦ not_exist
  | some p ↦ write_to wrote p p.has_stdin
]
