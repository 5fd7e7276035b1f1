-- ===== src/TemplateBuild/Process/Artifacts.antt =====
-- The export of the artifacts of internal/templatebuild/service.go keeps the log of a build.
use open_e2b.Prelude.{ℕ, String, [], ◌∷◌, Option, none, some}
use Prim.Native.String.{◌++◌ as ◌<>◌}
use open_e2b.Prelude.Time.{Time}
use open_e2b.Prelude.Action.{Outcome, done, failed, Output}
use open_e2b.TemplateBuild.Types.{info, warn, Build, Machine}
use open_e2b.TemplateBuild.Rootfs.{create_firecracker_rootfs}
use open_e2b.TemplateBuild.Artifacts
use open_e2b.TemplateBuild.Artifacts.{export_artifacts, metadata}
use open_e2b.TemplateBuild.Process.Keeps.{
  Later-refl, Keeps, return-Keeps, bind-Keeps, log-Keeps, command-Keeps, call-Keeps,
}

module _ {W : Type 0} (m : Machine W) where
  log_size-Keeps : (what : String) (size : Option ℕ) → Keeps (Artifacts.log_size m what size)
  log_size-Keeps what none = return-Keeps tt
  log_size-Keeps what (some size) = log-Keeps m info _ none

  saved-Keeps : (path output : String) (e : Option String) → Keeps (Artifacts.saved m path output e)
  saved-Keeps path output none =
      bind-Keeps _ _ (call-Keeps m (m.stat path)) (log_size-Keeps "Image saved")
  saved-Keeps path output (some e) = log-Keeps m warn _ none

  write_metadata-Keeps :
      (path : String) (text : Option String) → Keeps (Artifacts.write_metadata m path text)
  write_metadata-Keeps path none = return-Keeps none
  write_metadata-Keeps path (some text) = call-Keeps m (m.write_file path text)

  log_rootfs-Keeps : (made : Outcome (Unit {0})) → Keeps (Artifacts.log_rootfs m made)
  log_rootfs-Keeps (failed e) = log-Keeps m warn _ none
  log_rootfs-Keeps (done u) = log-Keeps m info _ none

  save_image-Keeps : (dir image : String) → Keeps (Artifacts.save_image m dir image)
  save_image-Keeps dir image =
      bind-Keeps _ _
        (command-Keeps m "docker" ("save" ∷ image ∷ "-o" ∷ m.join (dir ∷ "image.tar" ∷ []) ∷ []))
        λ (save : Output). saved-Keeps (m.join (dir ∷ "image.tar" ∷ [])) save.text save.error

  current-Keeps : Keeps (Artifacts.current m)
  current-Keeps = record { moved = λ j. Later-refl j.build }

  save_metadata-Keeps : (dir image base : String) → Keeps (Artifacts.save_metadata m dir image base)
  save_metadata-Keeps dir image base = bind-Keeps _ _ (call-Keeps m m.now) λ (now : Time).
      bind-Keeps _ _ current-Keeps λ (b : Build).
        write_metadata-Keeps (m.join (dir ∷ "metadata.json" ∷ []))
          (m.marshal (metadata m b image base now))

  make_rootfs-Keeps : (dir rootfs : String) → Keeps (Artifacts.make_rootfs m dir rootfs)
  make_rootfs-Keeps dir rootfs =
      bind-Keeps _ _ (log-Keeps m info "Creating Firecracker-ready rootfs..." none) λ u.
        bind-Keeps _ _ current-Keeps λ (b : Build).
          bind-Keeps _ _ (call-Keeps m (create_firecracker_rootfs m rootfs dir b.memory_mb))
            log_rootfs-Keeps

  exported-Keeps :
      (dir rootfs image base output : String) (e : Option String)
      → Keeps (Artifacts.exported m dir rootfs image base output e)
  exported-Keeps dir rootfs image base output (some e) = log-Keeps m warn _ none
  exported-Keeps dir rootfs image base output none =
      bind-Keeps _ _ (call-Keeps m (m.stat rootfs)) λ size.
        bind-Keeps _ _ (log_size-Keeps "Rootfs exported" size) λ u.
          bind-Keeps _ _ (save_image-Keeps dir image) λ u.
            bind-Keeps _ _ (save_metadata-Keeps dir image base) λ e.
              bind-Keeps _ _ (make_rootfs-Keeps dir rootfs)
                λ u. log-Keeps m info ("Artifacts saved to: " <> dir) none

  exporting-Keeps :
      (dir sandbox image base : String) (e : Option String)
      → Keeps (Artifacts.exporting m dir sandbox image base e)
  exporting-Keeps dir sandbox image base (some e) = log-Keeps m warn _ none
  exporting-Keeps dir sandbox image base none = bind-Keeps _ _ (log-Keeps m info _ none) λ u.
      bind-Keeps _ _ (command-Keeps m "docker" _)
        λ (out : Output). exported-Keeps dir _ image base out.text out.error

  pub export_artifacts-Keeps :
      (dir sandbox image base : String) → Keeps (export_artifacts m dir sandbox image base)
  unfolding export_artifacts
  export_artifacts-Keeps dir sandbox image base =
      bind-Keeps _ _ (call-Keeps m (m.mkdir_all dir)) (exporting-Keeps dir sandbox image base)
