-- ===== src/TemplateBuild/Rootfs.antt =====
-- internal/templatebuild/service.go: `createFirecrackerRootfs` and `findEnvdBinary`.
use open_e2b.Prelude.{ℕ, String, List, [], ◌∷◌, Option, none, some, ◌==◌, string_eq, if◌then◌else◌}
use Prim.Native.String.{◌++◌ as ◌<>◌}
use open_e2b.Prelude.Text.{show_int}
use open_e2b.Prelude.Word.{mul64, slt64}
use open_e2b.Prelude.Action.{
  done, failed, Action, return, deferred, calling, changing, ◌>>=◌, ◌>>◌, Output,
}
use open_e2b.TemplateBuild.Types.{Machine}

-- `memoryMB * 4` for a build with more than 512 MB, else 2048.
unfoldable pub rootfs_size_mb : ℕ → ℕ
rootfs_size_mb memory_mb = if slt64 512 memory_mb then mul64 memory_mb 4 else 2048

abbrev envd_locations : List String
envd_locations =
    "/opt/e2b/bin/envd" ∷ "bin/envd" ∷ "bin/envd-linux-amd64" ∷ "bin/envd-linux-arm64" ∷ "./envd"
    ∷ []

abbrev essential_dirs : List String
essential_dirs =
    "proc" ∷ "sys" ∷ "dev" ∷ "run" ∷ "tmp" ∷ "var/log" ∷ "usr/local/bin" ∷ "etc/init.d" ∷ []

abbrev rc_local : String
rc_local =
    "#!/bin/sh\n# E2B Sandbox Network and envd Configuration\n\n# Configure network interfaces\nip link set lo up\nip link set eth0 up 2>/dev/null || true\n\n# Try DHCP first, fallback to static IP\ndhclient eth0 2>/dev/null || {\n    ip addr add 192.168.100.2/24 dev eth0 2>/dev/null || true\n    ip route add default via 192.168.100.1 2>/dev/null || true\n}\n\n# Start envd daemon\nexport E2B_ENVD_PORT=49983\nif [ -x /usr/local/bin/envd ]; then\n    /usr/local/bin/envd > /var/log/envd.log 2>&1 &\n    echo \"envd started on port $E2B_ENVD_PORT\"\nfi\n\nexit 0\n"

abbrev envd_service : String
envd_service =
    "[Unit]\nDescription=E2B Environment Daemon\nAfter=network.target\n\n[Service]\nType=simple\nEnvironment=E2B_ENVD_PORT=49983\nExecStart=/usr/local/bin/envd\nRestart=always\nRestartSec=1\n\n[Install]\nWantedBy=multi-user.target\n"

module _ {W : Type 0} (m : Machine W) where
  -- The directory of the executable, where no location has the binary.
  abbrev beside_executable : Option String → W → String × W
  beside_executable none w = ("", w)
  beside_executable (some exe) w =
      let path = m.join (m.dir exe ∷ "envd" ∷ []) in
      let (found, w') = m.stat path w in (elim found [ none ↦ "" | some size ↦ path ], w')

  unfoldable pub find_location : List String → W → String × W
  find_location [] w = let (exe, w') = m.executable w in beside_executable exe w'
  find_location (p ∷ ps) w =
      let (found, w') = m.stat p w in
      let rest = find_location ps w' in elim found [ none ↦ rest | some size ↦ (p, w') ]

  unfoldable pub find_envd_binary : W → String × W
  find_envd_binary w = find_location envd_locations w

  -- A command that must end well; `undo` is done where it does not.
  unfoldable pub must : String → (W → W) → String → List String → Action W (Unit {0})
  must what undo name args w =
      let (out, w') = m.run name args w in
      elim out.error [
        | none ↦ (done tt, w')
        | some e ↦ (failed (what <> " failed: " <> out.text <> ": " <> e), undo w')
      ]

  -- os.MkdirAll with its error not looked at.
  abbrev make_dir : String → Action W (Option String)
  make_dir path = calling (m.mkdir_all path)

  unfoldable pub make_dirs : String → List String → Action W (Unit {0})
  make_dirs mount [] = return tt
  make_dirs mount (d ∷ ds) = make_dir (m.join (mount ∷ d ∷ [])) >>= λ e. make_dirs mount ds

  abbrev chmod_copied : String → Output → W → W
  chmod_copied path out w = elim out.error [ none ↦ m.chmod path w | some e ↦ w ]

  -- An error of the copy is only logged.
  abbrev inject : String → String → W → W
  inject mount envd w =
      let path = m.join (mount ∷ "usr" ∷ "local" ∷ "bin" ∷ "envd" ∷ []) in
      let (out, w') = m.run "cp" (envd ∷ path ∷ []) w in
      if envd == "" then w else chmod_copied path out w'

  -- What is written to the mounted file system.
  unfoldable pub fill_rootfs : String → String → Action W (Unit {0})
  fill_rootfs tar mount = do
    must "tar extract" (λ w. w) "tar" ("-xf" ∷ tar ∷ "-C" ∷ mount ∷ [])
    make_dirs mount essential_dirs
    envd ← calling find_envd_binary
    changing (inject mount envd)
    calling (m.write_file (m.join (mount ∷ "etc" ∷ "rc.local" ∷ [])) rc_local)
    let systemd = m.join (mount ∷ "etc" ∷ "systemd" ∷ "system" ∷ [])
    make_dir systemd
    calling (m.write_file (m.join (systemd ∷ "envd.service" ∷ [])) envd_service)
    let wants = m.join (systemd ∷ "multi-user.target.wants" ∷ [])
    make_dir wants
    changing (m.symlink "../envd.service" (m.join (wants ∷ "envd.service" ∷ [])))

  unfoldable pub create_firecracker_rootfs : String → String → ℕ → Action W (Unit {0})
  create_firecracker_rootfs tar artifacts memory_mb = do
    let ext4 = m.join (artifacts ∷ "rootfs.ext4" ∷ [])
    let mount = ext4 <> ".mount"
    must "dd" (λ w. w) "dd"
        ("if=/dev/zero"
          ∷ ("of=" <> ext4)
          ∷ "bs=1M"
          ∷ "count=0"
          ∷ ("seek=" <> show_int (rootfs_size_mb memory_mb))
          ∷ [])
    must "mkfs.ext4" (m.remove ext4) "mkfs.ext4" ("-F" ∷ ext4 ∷ [])
    make_dir mount
    deferred (m.remove_all mount) do
      must "mount" (m.remove ext4) "mount" ("-o" ∷ "loop" ∷ ext4 ∷ mount ∷ [])
      deferred (λ w. (m.run "umount" (mount ∷ []) w).1)
          do fill_rootfs tar mount; calling (m.stat ext4); return tt
