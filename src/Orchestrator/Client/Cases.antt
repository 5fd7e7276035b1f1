-- ===== src/Orchestrator/Client/Cases.antt =====
-- Case analysis for the calls of the client: an error, with another world at the most, or success.
use open_e2b.Prelude.{ℕ, String, true, Option, none, some, inl, inr, Bool-cases, string_eq}
use open_e2b.Prelude.GoMap.{get, put, remove}
use open_e2b.Prelude.Time.{Duration}
use open_e2b.Prelude.Action.{Outcome, done, failed}
use open_e2b.Orchestrator.Agent.{
  CreateSandboxResponse, StopSandboxResponse, PauseSandboxResponse, ResumeSandboxResponse,
}
use open_e2b.Scheduler.Types.{Node, SandboxSpec, SandboxResult, Result, ok, err}
use open_e2b.Orchestrator.Client
use open_e2b.Orchestrator.Client.{
  NodeAgentClient, SandboxLocation, OrchestratorClient, location, widen, node_operations,
  get_sandbox_host,
}

module _ {κ} {W : Type 0} (o : OrchestratorClient W) (n : Node) where
  asked_cases {ℓ} :
      {A : Type ℓ} (Q : Result A × OrchestratorClient W → Type κ)
      (f : NodeAgentClient W → OrchestratorClient W → Result A × OrchestratorClient W)
      → ((e : _) → Q (err e, o))
      → ((client : NodeAgentClient W) → Q (f client o))
      → (found : Option (NodeAgentClient W)) → Q (Client.ask_client n f found o)
  asked_cases Q f fails works none = fails _
  asked_cases Q f fails works (some client) = works client

  module _ (Q : Result (Option SandboxResult) × OrchestratorClient W → Type κ) (spec : SandboxSpec)
      (fails : (e : _) (w : W) → Q (err e, record o { world = w }))
      (works : (p : ℕ) (w : W)
        → Q (
          ok (some (record { host_port = widen p; envd_port = widen p })),
          record o { sandbox_ports = put o.sandbox_ports spec.id (location n p); world = w },
        )) where
    created_cases : (x : Outcome CreateSandboxResponse × W) → Q (Client.created n spec x o)
    created_cases (failed e, w) = fails _ w
    created_cases (done resp, w) = elim (Bool-cases resp.success) [
      | inl b ↦ rw b (works resp.envd_port w)
      | inr b ↦ rw b (fails _ w)
    ]

    pub create_cases : (ws : Duration → ℕ) → Q (Client.create_sandbox ws n spec o)
    unfolding Client.create_sandbox
    create_cases ws =
        asked_cases Q
          (λ client o'.
            Client.created n spec (client.create_sandbox (Client.request ws spec) o'.world) o')
          (λ e. fails e o.world)
          (λ client. created_cases (client.create_sandbox (Client.request ws spec) o.world))
          (get o.clients n.spec.id)

  module _ (Q : Result (Unit {0}) × OrchestratorClient W → Type κ) (id : String)
      (fails : (e : _) (w : W) → Q (err e, record o { world = w })) where
    module _
        (works : (w : W)
          → Q (ok tt, record o { sandbox_ports = remove o.sandbox_ports id; world = w })) where
      stopped_cases : (x : Outcome StopSandboxResponse × W) → Q (Client.stopped n id x o)
      stopped_cases (failed e, w) = fails _ w
      stopped_cases (done resp, w) = elim (Bool-cases resp.success) [
        | inl b ↦ rw b (works w)
        | inr b ↦ rw b (fails _ w)
      ]

      pub stop_cases : Q (Client.stop_sandbox n id o)
      unfolding Client.stop_sandbox
      stop_cases =
          asked_cases Q (λ client o'. Client.stopped n id (client.stop_sandbox id true o'.world) o')
            (λ e. fails e o.world) (λ client. stopped_cases (client.stop_sandbox id true o.world))
            (get o.clients n.spec.id)

    module _ (works : (w : W) → Q (ok tt, record o { world = w })) where
      paused_cases : (x : Outcome PauseSandboxResponse × W) → Q (Client.paused n x o)
      paused_cases (failed e, w) = fails _ w
      paused_cases (done resp, w) = elim (Bool-cases resp.success) [
        | inl b ↦ rw b (works w)
        | inr b ↦ rw b (fails _ w)
      ]

      pub pause_cases : Q (Client.pause_sandbox n id o)
      unfolding Client.pause_sandbox
      pause_cases =
          asked_cases Q (λ client o'. Client.paused n (client.pause_sandbox id o'.world) o')
            (λ e. fails e o.world) (λ client. paused_cases (client.pause_sandbox id o.world))
            (get o.clients n.spec.id)

      resumed_cases : (x : Outcome ResumeSandboxResponse × W) → Q (Client.resumed n x o)
      resumed_cases (failed e, w) = fails _ w
      resumed_cases (done resp, w) = elim (Bool-cases resp.success) [
        | inl b ↦ rw b (works w)
        | inr b ↦ rw b (fails _ w)
      ]

      pub resume_cases : Q (Client.resume_sandbox n id o)
      unfolding Client.resume_sandbox
      resume_cases =
          asked_cases Q (λ client o'. Client.resumed n (client.resume_sandbox id id o'.world) o')
            (λ e. fails e o.world) (λ client. resumed_cases (client.resume_sandbox id id o.world))
            (get o.clients n.spec.id)
