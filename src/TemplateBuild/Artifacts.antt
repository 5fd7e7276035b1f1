-- ===== src/TemplateBuild/Artifacts.antt =====
-- internal/templatebuild/service.go: what `processBuild` exports when the image is made. Nothing of
-- it fails the build.
use open_e2b.Prelude.{ℕ, String, List, [], ◌∷◌, Option, none, some}
use Prim.Native.String.{◌++◌ as ◌<>◌}
use open_e2b.Prelude.Time.{Time}
use open_e2b.Prelude.Action.{Outcome, done, failed, Action, return, ◌>>=◌, ◌>>◌}
use open_e2b.TemplateBuild.Types.{info, warn, Build, Json, text, int, Machine}
use open_e2b.TemplateBuild.Log.{Job, log, command, call}
use open_e2b.TemplateBuild.Rootfs.{create_firecracker_rootfs}

module _ {W : Type 0} (m : Machine W) where
  abbrev pub log_size : String → Option ℕ → Action (Job W) (Unit {0})
  log_size what none = return tt
  log_size what (some size) = log m info (what <> ": " <> m.megabytes size) none

  abbrev pub saved : String → String → Option String → Action (Job W) (Unit {0})
  saved path output (some e) = log m warn ("Failed to save image: " <> output <> ": " <> e) none
  saved path output none = call m (m.stat path) >>= log_size "Image saved"

  unfoldable pub metadata : Build → String → String → Time → List (String × Json)
  metadata b image base now =
      ("templateId", text b.template_id)
      ∷ ("buildId", text b.id)
      ∷ ("imageTag", text image)
      ∷ ("createdAt", text (m.rfc3339 now))
      ∷ ("baseImage", text base)
      ∷ ("cpuCount", int b.cpu_count)
      ∷ ("memoryMB", int b.memory_mb)
      ∷ []

  abbrev pub write_metadata : String → Option String → Action (Job W) (Option String)
  write_metadata path none = return none
  write_metadata path (some data_) = call m (m.write_file path data_)

  abbrev pub log_rootfs : Outcome (Unit {0}) → Action (Job W) (Unit {0})
  log_rootfs (failed e) = log m warn ("Failed to create Firecracker rootfs: " <> e) none
  log_rootfs (done u) = log m info "Firecracker rootfs created with envd injected" none

  abbrev pub current : Action (Job W) Build
  current j = (done j.build, j)

  -- The tar of the image, for later use.
  abbrev pub save_image : String → String → Action (Job W) (Unit {0})
  save_image dir image = do
    let path = m.join (dir ∷ "image.tar" ∷ [])
    save ← command m "docker" ("save" ∷ image ∷ "-o" ∷ path ∷ [])
    saved path save.text save.error

  abbrev pub save_metadata : String → String → String → Action (Job W) (Option String)
  save_metadata dir image base = do
    now ← call m m.now
    b ← current
    write_metadata (m.join (dir ∷ "metadata.json" ∷ [])) (m.marshal (metadata b image base now))

  abbrev pub make_rootfs : String → String → Action (Job W) (Unit {0})
  make_rootfs dir rootfs = do
    log m info "Creating Firecracker-ready rootfs..." none
    b ← current
    made ← call m (create_firecracker_rootfs m rootfs dir b.memory_mb)
    log_rootfs made

  abbrev pub exported :
      String → String → String → String → String → Option String → Action (Job W) (Unit {0})
  exported dir rootfs image base output (some e) =
      log m warn ("Failed to export rootfs: " <> output <> ": " <> e) none
  exported dir rootfs image base output none = do
    size ← call m (m.stat rootfs)
    log_size "Rootfs exported" size
    save_image dir image
    save_metadata dir image base
    make_rootfs dir rootfs
    log m info ("Artifacts saved to: " <> dir) none

  abbrev pub exporting :
      String → String → String → String → Option String → Action (Job W) (Unit {0})
  exporting dir sandbox image base (some e) =
      log m warn ("Failed to create artifacts directory: " <> e) none
  exporting dir sandbox image base none = do
    log m info "Exporting rootfs artifact..." none
    let rootfs = m.join (dir ∷ "rootfs.tar" ∷ [])
    out ← command m "docker" ("export" ∷ sandbox ∷ "-o" ∷ rootfs ∷ [])
    exported dir rootfs image base out.text out.error

  unfoldable pub export_artifacts : String → String → String → String → Action (Job W) (Unit {0})
  export_artifacts dir sandbox image base =
      call m (m.mkdir_all dir) >>= exporting dir sandbox image base
