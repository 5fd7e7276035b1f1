-- ===== src/Envd/Tests.antt =====
-- The theorems of the table of processes on two processes, and of the walk on a file system
-- whose directories are nested without end.
use open_e2b.Prelude.{ℕ, true, [], none, some, string_eq, nat_eq, arith}
use open_e2b.Envd.Process.{Process, Service, new_service, register, finish}
use open_e2b.Envd.Process.Index.{Reach, here, next, starts, ends, Indexed, Reach-Indexed}
use open_e2b.Prelude.{String}
use open_e2b.Prelude.{false, ◌∷◌, ◌+◌}
use open_e2b.Prelude.Int.{pos}
use Prim.Native.String.{◌++◌ as ◌<>◌}
use open_e2b.Prelude.Action.{done, failed}
use open_e2b.Envd.Filesystem.{FileInfo, FileSystem, list_dir}
use open_e2b.Envd.Filesystem.Depth.{Ends, list_dir-Ends}

abbrev shell : ℕ → Process
shell n = record {
  info = record {
    config = record { cmd = "sh"; args = []; envs = []; cwd = none };
    pid = n;
    tag = some "main";
  };
  has_stdin = true;
}

-- The same ID, and no tag.
abbrev other_shell : Process
other_shell = record {
  info = record {
    config = record { cmd = "ls"; args = []; envs = []; cwd = none };
    pid = 7;
    tag = none;
  };
  has_stdin = false;
}

abbrev one : Service
one = register (shell 7) new_service

-- A second process gets the ID of the first, and the end of the first is handled then.
abbrev reused : Service
reused = finish (shell 7) (register other_shell one)

reused_Reach : Reach reused (other_shell ∷ [])
reused_Reach =
    next (next (next here (starts (shell 7))) (starts other_shell))
      (ends (other_shell ∷ []) (shell 7) [])

Reach-Indexed_example : Indexed reused (other_shell ∷ [])
Reach-Indexed_example = Reach-Indexed reused_Reach

abbrev directory_info : FileInfo
directory_info = record {
  name = "d";
  size = 4096;
  mode = 493;
  permissions = "drwxr-xr-x";
  modified_time = pos 0;
  is_dir = true;
  is_symlink = false;
  ids = some (0, 1000);
}

-- Every directory holds a directory.
abbrev bottomless : FileSystem ℕ
bottomless = record {
  lstat = λ path n. (done directory_info, n);
  stat = λ path n. (done directory_info, n);
  mkdir_all = λ path n. (done tt, n);
  rename = λ old path n. (done tt, n);
  remove_all = λ path n. (done tt, n);
  read_dir = λ n path. done (record { name = "d"; is_dir = true; info = done directory_info } ∷ []);
  readlink = λ n path. failed "invalid argument";
  join = λ dir name. dir <> "/" <> name;
}

list_dir-Ends_example : Ends (λ k. list_dir bottomless 0 (3 + k) "/home" 3)
list_dir-Ends_example = list_dir-Ends bottomless 0 "/home" 3 (ground arith) (ground arith)
