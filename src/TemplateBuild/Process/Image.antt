-- ===== src/TemplateBuild/Process/Image.antt =====
-- The two halves of `processBuild` in internal/templatebuild/service.go keep the log of a build.
use open_e2b.Prelude.{String, [], ◌∷◌, Option, none, some, ◌==◌, string_eq, if◌then◌else◌}
use Prim.Native.String.{◌++◌ as ◌<>◌}
use open_e2b.Prelude.Action.{Output}
use open_e2b.TemplateBuild.Types.{info, Config, Build, Machine}
use open_e2b.TemplateBuild.Steps.{base_image}
use open_e2b.TemplateBuild.Process
use open_e2b.TemplateBuild.Process.{start_sandbox, build_image}
use open_e2b.TemplateBuild.Process.Keeps.{
  Keeps, return-Keeps, raise-Keeps, bind-Keeps, if-Keeps, log-Keeps, command-Keeps,
}
use open_e2b.TemplateBuild.Process.Steps.{execute_steps-Keeps, start_command-Keeps}
use open_e2b.TemplateBuild.Process.Artifacts.{export_artifacts-Keeps}

module _ {W : Type 0} (m : Machine W) where
  log_template-Keeps : (c : Option Config) → Keeps (Process.log_template m c)
  log_template-Keeps none = return-Keeps tt
  log_template-Keeps (some c) =
      if-Keeps (c.from_image == "") _ _
        (if-Keeps (c.from_template == "") _ _ (return-Keeps tt)
          (log-Keeps m info ("Using base template: " <> c.from_template) none))
        (return-Keeps tt)

  or_raise-Keeps :
      (what output : String) (e : Option String) → Keeps (Process.or_raise m what output e)
  or_raise-Keeps what output none = return-Keeps tt
  or_raise-Keeps what output (some e) = raise-Keeps (Unit {0}) (what <> ": " <> output <> ": " <> e)

  pub start_sandbox-Keeps : (sandbox : String) (b : Build) → Keeps (start_sandbox m sandbox b)
  unfolding start_sandbox
  start_sandbox-Keeps sandbox b = bind-Keeps _ _ (log-Keeps m info "Build started" none) λ u.
      bind-Keeps _ _ (log_template-Keeps b.config) λ u.
        bind-Keeps _ _ (log-Keeps m info ("Using base image: " <> base_image b.config) none) λ u.
          bind-Keeps _ _ (log-Keeps m info ("Creating build sandbox: " <> sandbox) none) λ u.
            bind-Keeps _ _
              (command-Keeps m "docker" (
                "run"
                ∷ "-d"
                ∷ "--name"
                ∷ sandbox
                ∷ base_image b.config
                ∷ "sleep"
                ∷ "infinity"
                ∷ []))
              λ (out : Output). or_raise-Keeps "failed to start sandbox" out.text out.error

  follow-Keeps : (sandbox : String) (c : Option Config) → Keeps (Process.follow m sandbox c)
  follow-Keeps sandbox none = return-Keeps tt
  follow-Keeps sandbox (some c) =
      bind-Keeps _ _ (execute_steps-Keeps m sandbox 1 c.steps)
        λ u. start_command-Keeps m sandbox c.start_cmd

  pub build_image-Keeps :
      (artifacts sandbox : String) (b : Build) → Keeps (build_image m artifacts sandbox b)
  unfolding build_image
  build_image-Keeps artifacts sandbox b =
      let image = "e2b/" <> b.template_id <> ":" <> b.id in
      bind-Keeps _ _ (log-Keeps m info "Sandbox started" none) λ u.
        bind-Keeps _ _ (follow-Keeps sandbox b.config) λ u.
          bind-Keeps _ _ (log-Keeps m info "Committing container as template image..." none) λ u.
            bind-Keeps _ _ (command-Keeps m "docker" ("commit" ∷ sandbox ∷ image ∷ []))
              λ (out : Output).
                bind-Keeps _ _ (or_raise-Keeps "failed to commit container" out.text out.error) λ u.
                  bind-Keeps _ _ (log-Keeps m info ("Created image: " <> image) none) λ u.
                    bind-Keeps _ _
                      (export_artifacts-Keeps m
                        (m.join (
                          (if artifacts == "" then "data/artifacts" else artifacts)
                          ∷ b.template_id
                          ∷ b.id
                          ∷ []))
                        sandbox image (base_image b.config))
                      λ u. log-Keeps m info "Build completed successfully" none
