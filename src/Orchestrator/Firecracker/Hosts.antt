-- ===== src/Orchestrator/Firecracker/Hosts.antt =====
-- internal/orchestrator/runtime_firecracker.go: `addHostsEntry` and `removeHostsEntry`.
pub mod Laws
use open_e2b.Prelude.{String, not, List, [], ◌∷◌, ◌++◌}
use open_e2b.Prelude.Bytes.{Bytes, has, split, join, keep}
use open_e2b.Prelude.Action.{Outcome, Action, ◌>>=◌, ◌>>◌}
use open_e2b.Orchestrator.Firecracker.{Os, explained, judged}

-- "%s\t%s\n"
unfoldable pub entry : Bytes → Bytes → Bytes
entry ip id = ip ++ 9 ∷ (id ++ 10 ∷ [])

-- The lines without the ID in them.
unfoldable pub without : Bytes → Bytes → Bytes
without id text = join 10 (keep (λ line. not (has line id)) (split 10 text))

module _ {W : Type 0} (os : Os W) where
  unfoldable pub add_hosts_entry : String → String → Action W (Unit {0})
  add_hosts_entry id ip = do
    λ w. explained "failed to open /etc/hosts" (λ x. x) (judged (os.open_append "/etc/hosts" w))
    λ w.
        explained "failed to write to /etc/hosts" (λ x. x)
          (judged (os.append_open "/etc/hosts" (entry (os.bytes ip) (os.bytes id)) w))

  unfoldable pub remove_hosts_entry : String → Action W (Unit {0})
  remove_hosts_entry id = do
    text ← λ w. explained "failed to read /etc/hosts" (λ x. x) (os.read_file "/etc/hosts" w)
    λ w.
        explained "failed to write /etc/hosts" (λ x. x)
          (judged (os.write_file "/etc/hosts" (without (os.bytes id) text) w))
