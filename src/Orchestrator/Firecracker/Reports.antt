-- ===== src/Orchestrator/Firecracker/Reports.antt =====
-- The agent of internal/orchestrator/service.go over the runtime of
-- internal/orchestrator/runtime_firecracker.go: what its answers to `CreateSandbox` say.
use open_e2b.Prelude.{
  ℕ, String, true, false, ◌==◌, string_eq, ◌≡◌, ◌≢◌, refl, sym, ◌⊎◌, inl, inr, some, arith, ==_iff,
  Bool-cases,
}
use open_e2b.Prelude.GoMap.{GoMap, get, put, get-put, get-put_self}
use open_e2b.Prelude.GoMap.Range.{Order}
use open_e2b.Prelude.Time.{Time}
use open_e2b.Prelude.Action.{Outcome, done, failed}
use open_e2b.Orchestrator.Agent
use open_e2b.Orchestrator.Agent.{CreateSandboxRequest, CreateSandboxResponse, spec_of}
use open_e2b.Orchestrator.Firecracker.{Os, Sdk, FirecrackerSandbox, Host}
use open_e2b.Orchestrator.Firecracker.Methods
use open_e2b.Orchestrator.Firecracker.Methods.{Booted, boot, tracked, created, remove_dir}
use open_e2b.Orchestrator.Firecracker.Status.{firecracker_runtime, get_sandbox_status, info_of}
use open_e2b.Orchestrator.Firecracker.Clean.{begun, boot-Splits}

get-put_other :
    {V : Type 0} (m : GoMap String V) (k j : String) (v : V) → j ≢ k → get (put m k v) j ≡ get m j
get-put_other m k j v other = elim (Bool-cases (k == j)) [
  | inl e ↦ absurd (other (sym ((==_iff k j).0 e)))
  | inr e ↦ rw (get-put m k j v, e) refl
]

module _ {W V : Type 0} (os : Os W) (sdk : Sdk W V) (fuel : ℕ) (o : Order) where
  -- With success the sandbox is tracked, and no other is touched; without it the runtime is as it was,
  -- and either the steps up to the making of the directory have failed, or its removal came last.
  abbrev pub IsReported :
      CreateSandboxRequest → Host W V → CreateSandboxResponse × Host W V → Type 0
  IsReported req h (resp, g) =
      (resp.success ≡ true
        → (resp.envd_port ≡ 49983)
          × ((b : Booted V) × (get g.runtime.sandboxes req.sandbox_id
                ≡ some (tracked os sdk fuel h.runtime (spec_of req) b)))
          × ((id : String)
              → id ≢ req.sandbox_id
              → get g.runtime.sandboxes id ≡ get h.runtime.sandboxes id))
      × (resp.success ≡ false
          → (g.runtime ≡ h.runtime)
            × (((e : String) × ((begun os sdk fuel h.runtime (spec_of req) h.world).0 ≡ failed e)
                  × (g.world ≡ (begun os sdk fuel h.runtime (spec_of req) h.world).1))
                ⊎ ((w : W) × (g.world ≡ remove_dir os sdk fuel h.runtime (spec_of req) w))))

  status-tracked :
      (g : Host W V) (id : String) (sb : FirecrackerSandbox V)
      → get g.runtime.sandboxes id ≡ some sb
      → get_sandbox_status id g ≡ (done (info_of id sb), g)
  unfolding get_sandbox_status
  status-tracked g id sb e = rw (e, get_sandbox_status) refl

  booted-IsReported :
      (req : CreateSandboxRequest) (h : Host W V) (x : Outcome (Booted V) × W)
      → ((e : String)
          → x.0 ≡ failed e
          → ((f : String) × ((begun os sdk fuel h.runtime (spec_of req) h.world).0 ≡ failed f)
              × (x.1 ≡ (begun os sdk fuel h.runtime (spec_of req) h.world).1))
            ⊎ ((w : W) × (x.1 ≡ remove_dir os sdk fuel h.runtime (spec_of req) w)))
      → IsReported req h (
          Agent.created
            (firecracker_runtime os sdk fuel o)
            req.sandbox_id
            (created os sdk fuel h.runtime (spec_of req) x))
  unfolding firecracker_runtime info_of tracked spec_of
  booted-IsReported req h (failed e, w) cleans = (λ y. ground arith, λ n. (refl, cleans e refl))
  booted-IsReported req h (done b, w) cleans =
      let sb = tracked os sdk fuel h.runtime (spec_of req) b in
      let g : Host W V = record {
        runtime = record h.runtime { sandboxes = put h.runtime.sandboxes req.sandbox_id sb };
        world = w;
      } in
      rw (status-tracked g req.sandbox_id sb (get-put_self h.runtime.sandboxes req.sandbox_id sb)) (
        λ y. (
          refl,
          (b, get-put_self h.runtime.sandboxes req.sandbox_id sb),
          λ id other. get-put_other h.runtime.sandboxes req.sandbox_id id sb other,
        ),
        λ n. ground arith,
      )

-- `CreateSandbox` of an agent on Firecracker, whatever the system and the SDK answer. With success in
-- the answer, the runtime tracks the sandbox under the ID of the request, as running, with the answered
-- port 49983, and tracks the others as before. Without it, the runtime is as before, and either
-- one of the steps up to the making of the directory of the sandbox returned an error, and the call did
-- nothing after it; or the removal of the directory is the last that the call did.
pub firecracker_create-IsReported :
    {W V : Type 0} (os : Os W) (sdk : Sdk W V) (fuel : ℕ) (o : Order) (now : Time)
    (req : CreateSandboxRequest) (h : Host W V)
    → IsReported os sdk fuel o req h
        (Agent.create_sandbox (firecracker_runtime os sdk fuel o) now o req h)
unfolding Agent.create_sandbox firecracker_runtime Methods.create_sandbox spec_of
firecracker_create-IsReported os sdk fuel o now req h =
    booted-IsReported os sdk fuel o req h (boot os sdk fuel h.runtime (spec_of req) h.world) (λ e p.
      elim (boot-Splits os sdk fuel h.runtime (spec_of req) h.world e p) [
        | inl (early, same) ↦ inl (e, early, same)
        | inr removed ↦ inr removed
      ])
