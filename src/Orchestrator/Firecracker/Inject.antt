-- ===== src/Orchestrator/Firecracker/Inject.antt =====
-- internal/orchestrator/runtime_firecracker.go: `injectEnvdIntoRootfs`, which writes the agent and its
-- services into a root file system while it is mounted.
use open_e2b.Prelude.{String, List, [], ◌∷◌, none, some}
use Prim.Native.String.{◌++◌ as ◌<>◌}
use open_e2b.Prelude.Action.{done, failed, Action, return, deferred, changing, ◌>>◌}
use open_e2b.Orchestrator.Types.{SandboxSpec}
use open_e2b.Orchestrator.Firecracker.{Os, ignoring}
use open_e2b.Orchestrator.Firecracker.Units.{
  first_envd_service, keep_alive_service, network_service, envd_service, init_script, rc_local,
  rc_local_service,
}

module _ {W : Type 0} (os : Os W) where
  -- A command that must end well; `undo` is done where it does not.
  unfoldable pub must : String → (W → W) → String → List String → Action W (Unit {0})
  must what undo name args w =
      let (out, w') = os.run name args w in
      elim out.error [
        | none ↦ (done tt, w')
        | some e ↦ (failed (what <> ": " <> out.text <> ": " <> e), undo w')
      ]

  -- `defer exec.CommandContext(ctx, "umount", mountPoint).Run()`
  unfoldable pub unmount : String → W → W
  unmount mount w = (os.run "umount" (mount ∷ []) w).1

  abbrev pub make_dir : String → Action W (Unit {0})
  make_dir path = ignoring (os.mkdir_all path)

  abbrev pub write_text : String → String → Action W (Unit {0})
  write_text path text = ignoring (os.write_file path (os.bytes text))

  -- os.Remove, then os.Symlink.
  abbrev relink : String → String → Action W (Unit {0})
  relink target path = changing (λ w. os.symlink target path (os.remove path w))

  abbrev runlevels : List String
  runlevels = "2" ∷ "3" ∷ "4" ∷ "5" ∷ []

  unfoldable pub link_runlevels : String → List String → Action W (Unit {0})
  link_runlevels mount [] = return tt
  link_runlevels mount (level ∷ levels) =
      let dir = os.join (mount ∷ "etc" ∷ ("rc" <> level <> ".d") ∷ []) in
      make_dir dir
      >> (relink "../init.d/envd" (os.join (dir ∷ "S99envd" ∷ [])) >> link_runlevels mount levels)

  -- The services of systemd.
  unfoldable pub write_services : String → String → Action W (Unit {0})
  write_services mount token = do
    let systemd = os.join (mount ∷ "etc" ∷ "systemd" ∷ "system" ∷ [])
    let service = os.join (systemd ∷ "envd.service" ∷ [])
    let wants = os.join (systemd ∷ "multi-user.target.wants" ∷ [])
    let basic = os.join (systemd ∷ "basic.target.wants" ∷ [])
    make_dir systemd
    write_text service (first_envd_service token)
    make_dir wants
    relink "../envd.service" (os.join (wants ∷ "envd.service" ∷ []))
    make_dir basic
    relink "../envd.service" (os.join (basic ∷ "envd.service" ∷ []))
    write_text (os.join (systemd ∷ "e2b-keepalive.service" ∷ [])) keep_alive_service
    relink "../e2b-keepalive.service" (os.join (wants ∷ "e2b-keepalive.service" ∷ []))
    write_text (os.join (systemd ∷ "e2b-network.service" ∷ [])) network_service
    relink "../e2b-network.service" (os.join (wants ∷ "e2b-network.service" ∷ []))
    write_text service (envd_service token)

  -- The scripts for other kinds of init.
  unfoldable pub write_scripts : String → String → Action W (Unit {0})
  write_scripts mount token = do
    let init = os.join (mount ∷ "etc" ∷ "init.d" ∷ "envd" ∷ [])
    let systemd = os.join (mount ∷ "etc" ∷ "systemd" ∷ "system" ∷ [])
    let wants = os.join (systemd ∷ "multi-user.target.wants" ∷ [])
    make_dir (os.dir init)
    write_text init (init_script token)
    link_runlevels mount runlevels
    write_text (os.join (mount ∷ "etc" ∷ "rc.local" ∷ [])) (rc_local token)
    write_text (os.join (systemd ∷ "rc-local.service" ∷ [])) rc_local_service
    relink "../rc-local.service" (os.join (wants ∷ "rc-local.service" ∷ []))

  -- What is done while the file system is mounted.
  unfoldable pub fill : String → String → String → Action W (Unit {0})
  fill envd mount token = do
    let dst = os.join (mount ∷ "usr" ∷ "local" ∷ "bin" ∷ "envd" ∷ [])
    make_dir (os.dir dst)
    must "failed to copy envd" (λ w. w) "cp" (envd ∷ dst ∷ [])
    changing (os.chmod dst)
    write_services mount token
    write_scripts mount token

  -- The deferred calls run last in, first out: umount, then the removal of the mount point.
  unfoldable pub mounted : String → String → (W → W) → Action W (Unit {0}) → Action W (Unit {0})
  mounted path mount undo body = do
    make_dir mount
    deferred (os.remove_all mount) (
        must "mount failed" undo "mount" ("-o" ∷ "loop" ∷ path ∷ mount ∷ [])
        >> deferred (unmount mount) body)

  unfoldable pub inject_envd : String → String → SandboxSpec → Action W (Unit {0})
  inject_envd envd rootfs spec =
      let mount = rootfs <> ".mount" in
      mounted rootfs mount (λ w. w) (fill envd mount spec.envd_token)
