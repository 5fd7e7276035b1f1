-- ===== src/Orchestrator/Firecracker/Mounts.antt =====
-- The mount table of the host while internal/orchestrator/runtime_firecracker.go works on a root file
-- system: what calls leave it as it was.
use open_e2b.Prelude.{
  String, Bool, true, false, ◌==◌, string_eq, List, [], ◌∷◌, Option, none, some, Option-cases, ◌⊎◌,
  inl, inr, ◌≡◌, refl, ap, ◌∙◌, if◌then◌else◌,
}
use open_e2b.Prelude.Bytes.{Bytes}
use open_e2b.Prelude.Action.{
  Outcome, done, failed, Action, continue, changing, deferred, ◌>>=◌, ◌>>◌,
}
use open_e2b.Orchestrator.Types.{SandboxSpec}
use open_e2b.Orchestrator.Firecracker.{Os, explained, judged}
use open_e2b.Orchestrator.Firecracker.Inject.{
  must, unmount, mounted, link_runlevels, write_services, write_scripts, fill, inject_envd,
}

-- An entry of the mount table. It is stale where a mount or an umount that returned an error has left
-- it there: the command was never started, it failed, or it was killed on its way.
pub record Mounted : Type 0 where
  pub point : String
  pub stale : Bool

-- The mount points that are not stale, the latest first.
unfoldable pub live : List Mounted → List String
live [] = []
live (e ∷ es) = let rest = live es in if e.stale then rest else e.point ∷ rest

-- The calls but mount(8) and umount(8) leave what is looked at.
pub record IsStill {W T : Type 0} (os : Os W) (view : W → T) : Type 0 where
  pub running :
      (name : String) (args : List String) (w : W)
      → (name == "mount") ≡ false
      → (name == "umount") ≡ false
      → view (os.run name args w).1 ≡ view w
  pub output :
      (name : String) (args : List String) (w : W) → view (os.output name args w).1 ≡ view w
  pub mkdir_all : (path : String) (w : W) → view (os.mkdir_all path w).1 ≡ view w
  pub write_file :
      (path : String) (text : Bytes) (w : W) → view (os.write_file path text w).1 ≡ view w
  pub stat : (path : String) (w : W) → view (os.stat path w).1 ≡ view w
  pub rename : (a b : String) (w : W) → view (os.rename a b w).1 ≡ view w
  pub remove : (path : String) (w : W) → view (os.remove path w) ≡ view w
  pub remove_all : (path : String) (w : W) → view (os.remove_all path w) ≡ view w
  pub symlink : (a b : String) (w : W) → view (os.symlink a b w) ≡ view w
  pub chmod : (path : String) (w : W) → view (os.chmod path w) ≡ view w

abbrev entry : String → Bool → Mounted
entry mount stale = record { point = mount; stale = stale }

abbrev mount_args : String → String → List String
mount_args path mount = "-o" ∷ "loop" ∷ path ∷ mount ∷ []

-- The mount table of the host, the latest first. mount(8) adds an entry, or returns an error and adds
-- none or a stale one; umount(8) takes the latest away, or returns an error and takes it away or leaves
-- it, stale.
pub record IsMountTable {W : Type 0} (os : Os W) (table : W → List Mounted) : Type 0 where
  pub still : IsStill os table
  pub mounting :
      (path mount : String) (w : W)
      → (os.run "mount" (mount_args path mount) w).0.error ≡ none
      → table (os.run "mount" (mount_args path mount) w).1 ≡ entry mount false ∷ table w
  pub not_mounting :
      (path mount e : String) (w : W)
      → (os.run "mount" (mount_args path mount) w).0.error ≡ some e
      → (table (os.run "mount" (mount_args path mount) w).1 ≡ table w)
        ⊎ (table (os.run "mount" (mount_args path mount) w).1 ≡ entry mount true ∷ table w)
  pub unmounting :
      (mount : String) (es : List Mounted) (w : W)
      → table w ≡ entry mount false ∷ es
      → (os.run "umount" (mount ∷ []) w).0.error ≡ none
      → table (os.run "umount" (mount ∷ []) w).1 ≡ es
  pub not_unmounting :
      (mount e : String) (es : List Mounted) (w : W)
      → table w ≡ entry mount false ∷ es
      → (os.run "umount" (mount ∷ []) w).0.error ≡ some e
      → (table (os.run "umount" (mount ∷ []) w).1 ≡ es)
        ⊎ (table (os.run "umount" (mount ∷ []) w).1 ≡ entry mount true ∷ es)

module _ {W T : Type 0} (view : W → T) where
  -- A function that leaves the table, and an action that does.
  abbrev pub Still : (W → W) → Type 0
  Still f = (w : W) → view (f w) ≡ view w

  abbrev pub Keeps {ℓ} : {A : Type ℓ} → (W → A × W) → Type 0
  Keeps m = (w : W) → view (m w).1 ≡ view w

  pub bind-Keeps :
      {A B : Type 0} (m : Action W A) (f : A → Action W B)
      → Keeps m
      → ((a : A) → Keeps (f a))
      → Keeps (m >>= f)
  bind-Keeps {A = A} m f h k w = continue-mounts (m w).0 (m w).1 ∙ h w
    where
      continue-mounts : (r : Outcome A) (v : W) → view (continue r f v).1 ≡ view v
      continue-mounts (done a) v = k a v
      continue-mounts (failed e) v = refl

  pub explained-Keeps :
      {A : Type 0} (what : String) (undo : W → W) (m : W → Outcome A × W)
      → Still undo
      → Keeps m
      → Keeps (λ w. explained what undo (m w))
  explained-Keeps {A = A} what undo m s h w = at (m w) ∙ h w
    where
      at : (x : Outcome A × W) → view (explained what undo x).1 ≡ view x.1
      at (done a, v) = refl
      at (failed e, v) = s v

  pub judged-Keeps : (m : W → Option String × W) → Keeps m → Keeps (λ w. judged (m w))
  judged-Keeps m h w = at (m w) ∙ h w
    where
      at : (x : Option String × W) → view (judged x).1 ≡ view x.1
      at (none, v) = refl
      at (some e, v) = refl

  pub deferred-Keeps :
      {A : Type 0} (f : W → W) (m : Action W A) → Still f → Keeps m → Keeps (deferred f m)
  deferred-Keeps f m s h w = s (m w).1 ∙ h w

module _ {W T : Type 0} (os : Os W) (view : W → T) (still : IsStill os view) where
  pub must-Keeps :
      (what : String) (undo : W → W) (name : String) (args : List String)
      → Still view undo
      → (name == "mount") ≡ false
      → (name == "umount") ≡ false
      → Keeps view (must os what undo name args)
  unfolding must
  must-Keeps what undo name args s a b w = elim (Option-cases (os.run name args w).0.error) [
    | inl e ↦ rw (e, must) (still.running name args w a b)
    | inr (f, e) ↦ rw (e, must) (s (os.run name args w).1 ∙ still.running name args w a b)
  ]

  write_services-Keeps : (mount token : String) → Keeps view (write_services os mount token)
  unfolding write_services
  write_services-Keeps mount token w =
      simp (still.mkdir_all, still.write_file, still.symlink, still.remove)

  write_scripts-Keeps : (mount token : String) → Keeps view (write_scripts os mount token)
  unfolding write_scripts link_runlevels
  write_scripts-Keeps mount token w =
      simp (still.mkdir_all, still.write_file, still.symlink, still.remove)

  pub fill-Keeps : (envd mount token : String) → Keeps view (fill os envd mount token)
  unfolding fill
  fill-Keeps envd mount token w =
      let dst = os.join (mount ∷ "usr" ∷ "local" ∷ "bin" ∷ "envd" ∷ []) in
      let services = write_services os mount token in
      let scripts = write_scripts os mount token in
      bind-Keeps view (must os "failed to copy envd" (λ x. x) "cp" (envd ∷ dst ∷ []))
        (λ u. changing (os.chmod dst) >> (services >> scripts))
        (must-Keeps "failed to copy envd" (λ x. x) "cp" (envd ∷ dst ∷ []) (λ x. refl) refl refl)
        (λ u x.
          bind-Keeps view services (λ v. scripts) (write_services-Keeps mount token)
            (λ v. write_scripts-Keeps mount token) (os.chmod dst x)
          ∙ still.chmod dst x)
        (os.mkdir_all (os.dir dst) w).1
      ∙ still.mkdir_all (os.dir dst) w

module _ {W : Type 0} (os : Os W) (table : W → List Mounted) (law : IsMountTable os table) where
  abbrev pub in_use : W → List String
  in_use w = live (table w)

  pub in_use-IsStill : IsStill os in_use
  in_use-IsStill = record {
    running = λ name args w a b. ap live (law.still.running name args w a b);
    output = λ name args w. ap live (law.still.output name args w);
    mkdir_all = λ path w. ap live (law.still.mkdir_all path w);
    write_file = λ path text w. ap live (law.still.write_file path text w);
    stat = λ path w. ap live (law.still.stat path w);
    rename = λ a b w. ap live (law.still.rename a b w);
    remove = λ path w. ap live (law.still.remove path w);
    remove_all = λ path w. ap live (law.still.remove_all path w);
    symlink = λ a b w. ap live (law.still.symlink a b w);
    chmod = λ path w. ap live (law.still.chmod path w);
  }

  -- A stale entry is not in use.
  stale-live :
      (mount : String) (es fs : List Mounted)
      → (fs ≡ es) ⊎ (fs ≡ entry mount true ∷ es)
      → live fs ≡ live es
  unfolding live
  stale-live mount es fs (inl e) = ap live e
  stale-live mount es fs (inr e) = ap live e

  unmount-in_use :
      (mount : String) (es : List Mounted) (w : W)
      → table w ≡ entry mount false ∷ es
      → in_use (unmount os mount w) ≡ live es
  unfolding unmount
  unmount-in_use mount es w top = elim (Option-cases (os.run "umount" (mount ∷ []) w).0.error) [
    | inl e ↦ ap live (law.unmounting mount es w top e)
    | inr (f, e) ↦ stale-live mount es _ (law.not_unmounting mount f es w top e)
  ]

  between-Keeps :
      (path mount : String) (undo : W → W) (body : Action W (Unit {0}))
      → Still table undo
      → Keeps table body
      → Keeps in_use (
          must os "mount failed" undo "mount" (mount_args path mount)
          >> deferred (unmount os mount) body)
  unfolding must
  between-Keeps path mount undo body s k v =
      elim (Option-cases (os.run "mount" (mount_args path mount) v).0.error) [
        | inl e ↦
            rw (e, must) (unmount-in_use mount (table v) _ (k _ ∙ law.mounting path mount v e))
        | inr (f, e) ↦
            rw (e, must)
              (ap live (s _) ∙ stale-live mount (table v) _ (law.not_mounting path mount f v e))
      ]

  -- What is done between mount and umount leaves the mount points in use as they were, if it leaves the
  -- whole table.
  pub mounted-Keeps :
      (path mount : String) (undo : W → W) (body : Action W (Unit {0}))
      → Still table undo
      → Keeps table body
      → Keeps in_use (mounted os path mount undo body)
  unfolding mounted
  mounted-Keeps path mount undo body s k w =
      in_use-IsStill.remove_all mount _
      ∙ between-Keeps path mount undo body s k (os.mkdir_all mount w).1
      ∙ in_use-IsStill.mkdir_all mount w

  pub inject_envd-Keeps :
      (envd rootfs : String) (spec : SandboxSpec) → Keeps in_use (inject_envd os envd rootfs spec)
  unfolding inject_envd
  inject_envd-Keeps envd rootfs spec =
      mounted-Keeps rootfs _ (λ w. w) (fill os envd _ spec.envd_token) (λ w. refl)
        (fill-Keeps os table law.still envd _ spec.envd_token)
