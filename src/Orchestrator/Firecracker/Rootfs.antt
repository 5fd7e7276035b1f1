-- ===== src/Orchestrator/Firecracker/Rootfs.antt =====
-- internal/orchestrator/runtime_firecracker.go: `prepareRootfs` and what it falls back on:
-- `convertTarToExt4`, `downloadBaseRootfs` and `createMinimalRootfs`.
pub mod Mounts
use open_e2b.Prelude.{
  ℕ, String, Bool, true, false, ◌||◌, ◌==◌, string_eq, List, [], ◌∷◌, Option, none, some,
  if◌then◌else◌,
}
use Prim.Native.String.{◌++◌ as ◌<>◌}
use open_e2b.Prelude.Text.{show_int}
use open_e2b.Prelude.Word.{slt64}
use open_e2b.Prelude.Bytes.{Bytes}
use open_e2b.Prelude.Action.{Outcome, done, failed, Action, return, changing, ◌>>=◌, ◌>>◌, Output}
use open_e2b.Orchestrator.Types.{SandboxSpec}
use open_e2b.Orchestrator.Client.{widen}
use open_e2b.Orchestrator.Firecracker.{
  Os, Stat, found, missing, unreadable, explained, judged, ignoring,
}
use open_e2b.Orchestrator.Firecracker.Search.{contains}
use open_e2b.Orchestrator.Firecracker.Units.{minimal_init}
use open_e2b.Orchestrator.Firecracker.Inject.{must, mounted, make_dir, inject_envd}

-- A size that is not positive stands for 2048 MB.
unfoldable pub size_or_default : ℕ → ℕ
size_or_default size = if slt64 0 size then size else 2048

abbrev minimal_dirs : List String
minimal_dirs =
    "bin" ∷ "etc" ∷ "home/user" ∷ "lib" ∷ "lib64" ∷ "proc" ∷ "root" ∷ "run" ∷ "sbin" ∷ "sys" ∷ "tmp"
    ∷ "usr/bin" ∷ "usr/sbin" ∷ "var/log" ∷ []

abbrev quickstart : Bool → String
quickstart true =
    "https://s3.amazonaws.com/spec.ccfc.min/img/quickstart_guide/aarch64/rootfs/bionic.rootfs.ext4"
quickstart false =
    "https://s3.amazonaws.com/spec.ccfc.min/img/quickstart_guide/x86_64/rootfs/bionic.rootfs.ext4"

abbrev succeeded : Option String → Bool
succeeded none = true
succeeded (some e) = false

module _ {W : Type 0} (os : Os W) where
  -- An empty ext4 file system in a sparse file, which is removed where it cannot be formatted.
  unfoldable pub format_ext4 : String → ℕ → Action W (Unit {0})
  format_ext4 path size = do
    must os "dd failed" (λ w. w) "dd"
        ("if=/dev/zero"
          ∷ ("of=" <> path)
          ∷ "bs=1M"
          ∷ "count=0"
          ∷ ("seek=" <> show_int (size_or_default size))
          ∷ [])
    must os "mkfs.ext4 failed" (os.remove path) "mkfs.ext4" ("-F" ∷ path ∷ [])

  unfoldable pub convert_tar_to_ext4 : String → String → ℕ → Action W (Unit {0})
  convert_tar_to_ext4 tar ext4 size =
      let mount = ext4 <> ".mount" in
      format_ext4 ext4 size
      >> mounted os ext4 mount (os.remove ext4)
          (must os "tar extract failed" (λ w. w) "tar" ("-xf" ∷ tar ∷ "-C" ∷ mount ∷ []))

  unfoldable pub make_dirs : String → List String → Action W (Unit {0})
  make_dirs mount [] = return tt
  make_dirs mount (d ∷ ds) = make_dir os (os.join (mount ∷ d ∷ [])) >> make_dirs mount ds

  -- What is made by hand where debootstrap fails.
  abbrev bootstrapped : String → Output × W → Outcome (Unit {0}) × W
  bootstrapped mount (out, w) = elim out.error [
    | none ↦ (done tt, w)
    | some e ↦
        explained "failed to write init" (λ x. x)
          (judged (
            os.write_file (os.join (mount ∷ "init" ∷ [])) (os.bytes minimal_init)
              (make_dirs mount minimal_dirs w).1))
  ]

  abbrev bootstrap : String → Action W (Unit {0})
  bootstrap mount w = bootstrapped mount (
      os.run "debootstrap"
        ("--variant=minbase" ∷ "jammy" ∷ mount ∷ "http://archive.ubuntu.com/ubuntu" ∷ []) w)

  unfoldable pub create_minimal_rootfs : String → ℕ → Action W (Unit {0})
  create_minimal_rootfs rootfs size =
      let mount = rootfs <> ".mount" in
      format_ext4 rootfs size >> mounted os rootfs mount (os.remove rootfs) (bootstrap mount)

  abbrev is_arm : Output → Bool
  is_arm out = elim out.error [
    | none ↦
        contains (os.bytes out.text) (os.bytes "aarch64")
        || contains (os.bytes out.text) (os.bytes "arm64")
    | some e ↦ false
  ]

  abbrev copy_args : String → String → List String
  copy_args src dst = "--reflink=auto" ∷ src ∷ dst ∷ []

  -- The copy for later use, where there is none.
  abbrev save_base : String → String → Stat × W → W
  save_base dest base (missing, w) = (os.run "cp" (copy_args dest base) w).1
  save_base dest base (found, w) = w
  save_base dest base (unreadable, w) = w

  abbrev saved : String → String → W → W
  saved artifacts dest w =
      let dir = os.join (artifacts ∷ "base" ∷ "default" ∷ []) in
      let base = os.join (dir ∷ "rootfs.ext4" ∷ []) in
      save_base dest base (os.stat base (os.mkdir_all dir w).1)

  unfoldable pub download_base_rootfs : String → String → Action W (Unit {0})
  download_base_rootfs artifacts dest w =
      let (arch, w1) = os.output "uname" ("-m" ∷ []) w in
      let temp = dest <> ".download" in
      (must os "curl failed" (os.remove temp) "curl"
            ("-fsSL" ∷ "-o" ∷ temp ∷ quickstart (is_arm arch) ∷ [])
          >> ((λ x. explained "failed to rename" (os.remove temp) (judged (os.rename temp dest x)))
              >> changing (saved artifacts dest)))
        w1

  -- A copy of a file that is there, and whether it was made.
  abbrev copy_found : String → String → Stat × W → Bool × W
  copy_found src dest (missing, w) = (false, w)
  copy_found src dest (unreadable, w) = (false, w)
  copy_found src dest (found, w) =
      let (out, w') = os.run "cp" (copy_args src dest) w in (succeeded out.error, w')

  abbrev try_copy : String → String → W → Bool × W
  try_copy src dest w = copy_found src dest (os.stat src w)

  abbrev well {ℓ} : {A : Type ℓ} → Outcome A × W → Bool × W
  well (done a, w) = (true, w)
  well (failed e, w) = (false, w)

  abbrev convert_found : String → String → ℕ → Stat × W → Bool × W
  convert_found tar dest size (missing, w) = (false, w)
  convert_found tar dest size (unreadable, w) = (false, w)
  convert_found tar dest size (found, w) = well (convert_tar_to_ext4 tar dest size w)

  abbrev try_tar : String → String → ℕ → W → Bool × W
  try_tar tar dest size w = convert_found tar dest size (os.stat tar w)

  -- `if !rootfsFound { ... }`
  abbrev or_else : (W → Bool × W) → Bool × W → Bool × W
  or_else next (true, w) = (true, w)
  or_else next (false, w) = next w

  unfoldable pub try_bases : String → List String → W → Bool × W
  try_bases dest [] w = (false, w)
  try_bases dest (p ∷ ps) w = or_else (try_bases dest ps) (try_copy p dest w)

  abbrev base_paths : String → List String
  base_paths artifacts =
      os.join (artifacts ∷ "base" ∷ "default" ∷ "rootfs.ext4" ∷ [])
      ∷ os.join (artifacts ∷ "base" ∷ "rootfs.ext4" ∷ [])
      ∷ "/opt/e2b/base-rootfs.ext4"
      ∷ []

  -- The root file systems that are there, in the order of preference.
  unfoldable pub find_rootfs : String → SandboxSpec → String → W → Bool × W
  find_rootfs artifacts spec dest w =
      let of_build : String → String =
        λ name. os.join (artifacts ∷ spec.template_id ∷ spec.build_id ∷ name ∷ []) in
      or_else (try_bases dest (base_paths artifacts)) (
        or_else (try_tar (of_build "rootfs.tar") dest (widen spec.disk_size_mb))
          (try_copy (of_build "rootfs.ext4") dest w))

  abbrev minimal_after : String → ℕ → Outcome (Unit {0}) × W → Outcome (Unit {0}) × W
  minimal_after dest size (done u, w) = (done u, w)
  minimal_after dest size (failed e, w) =
      explained "failed to create minimal rootfs" (λ x. x) (create_minimal_rootfs dest size w)

  abbrev provided : String → SandboxSpec → String → Bool × W → Outcome (Unit {0}) × W
  provided artifacts spec dest (true, w) = (done tt, w)
  provided artifacts spec dest (false, w) =
      minimal_after dest (widen spec.disk_size_mb) (download_base_rootfs artifacts dest w)

  -- An error of the injection is only logged.
  abbrev injected : String → SandboxSpec → String → W → W
  injected envd spec dest w = if envd == "" then w else (inject_envd os envd dest spec w).1

  unfoldable pub prepare_rootfs : String → String → SandboxSpec → String → Action W (Unit {0})
  prepare_rootfs artifacts envd spec dest =
      (λ w. provided artifacts spec dest (find_rootfs artifacts spec dest w))
      >> changing (injected envd spec dest)
