-- ===== src/Orchestrator/Firecracker/Rootfs/Mounts.antt =====
-- The mount table of the host after `prepareRootfs` (internal/orchestrator/runtime_firecracker.go).
use open_e2b.Prelude.{
  ℕ, String, Bool, true, false, ◌==◌, string_eq, List, [], ◌∷◌, Option-cases, Bool-cases, inl, inr,
  ◌≡◌, refl, ◌∙◌,
}
use open_e2b.Prelude.Action.{Outcome, done, failed, changing, ◌>>◌, Output}
use open_e2b.Orchestrator.Types.{SandboxSpec}
use open_e2b.Orchestrator.Firecracker.{Os, Stat, found, missing, unreadable, explained, judged}
use open_e2b.Orchestrator.Firecracker.Inject.{must, mounted}
use open_e2b.Orchestrator.Firecracker.Mounts.{
  Mounted, live, IsStill, IsMountTable, in_use, in_use-IsStill, Still, Keeps, bind-Keeps,
  explained-Keeps, judged-Keeps, must-Keeps, mounted-Keeps, inject_envd-Keeps,
}
use open_e2b.Orchestrator.Firecracker.Rootfs
use open_e2b.Orchestrator.Firecracker.Rootfs.{
  format_ext4, convert_tar_to_ext4, make_dirs, create_minimal_rootfs, download_base_rootfs,
  try_bases, find_rootfs, prepare_rootfs,
}

module _ {W T : Type 0} (os : Os W) (view : W → T) (still : IsStill os view) where
  format_ext4-Keeps : (path : String) (size : ℕ) → Keeps view (format_ext4 os path size)
  unfolding format_ext4
  format_ext4-Keeps path size =
      bind-Keeps view (must os "dd failed" (λ w. w) "dd" _)
        (λ u. must os "mkfs.ext4 failed" (os.remove path) "mkfs.ext4" ("-F" ∷ path ∷ []))
        (must-Keeps os view still "dd failed" (λ w. w) "dd" _ (λ w. refl) refl refl)
        (λ u.
          must-Keeps os view still "mkfs.ext4 failed" (os.remove path) "mkfs.ext4"
            ("-F" ∷ path ∷ []) (still.remove path) refl refl)

  make_dirs-Keeps : (mount : String) (ds : List String) → Keeps view (make_dirs os mount ds)
  unfolding make_dirs
  make_dirs-Keeps mount [] w = refl
  make_dirs-Keeps mount (d ∷ ds) w = make_dirs-Keeps mount ds _ ∙ still.mkdir_all _ w

  by_hand-Keeps :
      (mount : String) (x : Output × W) → view (Rootfs.bootstrapped os mount x).1 ≡ view x.1
  by_hand-Keeps mount (out, w) = elim (Option-cases out.error) [
    | inl e ↦ rw e refl
    | inr (f, e) ↦ rw e (
        explained-Keeps view "failed to write init" (λ x. x) (λ v. judged (os.write_file _ _ v))
          (λ x. refl) (judged-Keeps view (λ v. os.write_file _ _ v) (still.write_file _ _))
          (make_dirs os mount _ w).1
        ∙ make_dirs-Keeps mount _ w)
  ]

  bootstrap-Keeps : (mount : String) → Keeps view (Rootfs.bootstrap os mount)
  bootstrap-Keeps mount w =
      let args = "--variant=minbase" ∷ "jammy" ∷ mount ∷ "http://archive.ubuntu.com/ubuntu" ∷ [] in
      by_hand-Keeps mount (os.run "debootstrap" args w)
      ∙ still.running "debootstrap" args w refl refl

  save_base-Keeps :
      (dest base : String) (x : Stat × W) → view (Rootfs.save_base os dest base x) ≡ view x.1
  save_base-Keeps dest base (missing, w) = still.running "cp" _ w refl refl
  save_base-Keeps dest base (found, w) = refl
  save_base-Keeps dest base (unreadable, w) = refl

  saved-Still : (artifacts dest : String) → Still view (Rootfs.saved os artifacts dest)
  saved-Still artifacts dest w =
      save_base-Keeps dest _ _ ∙ still.stat _ (os.mkdir_all _ w).1 ∙ still.mkdir_all _ w

  download-Keeps : (artifacts dest : String) → Keeps view (download_base_rootfs os artifacts dest)
  unfolding download_base_rootfs
  download-Keeps artifacts dest w =
      bind-Keeps view (must os "curl failed" (os.remove _) "curl" _)
        (λ u.
          (λ x. explained "failed to rename" (os.remove _) (judged (os.rename _ dest x)))
          >> changing (Rootfs.saved os artifacts dest))
        (must-Keeps os view still "curl failed" (os.remove _) "curl" _ (still.remove _) refl refl)
        (λ u.
          bind-Keeps view
            (λ x. explained "failed to rename" (os.remove _) (judged (os.rename _ dest x)))
            (λ v. changing (Rootfs.saved os artifacts dest))
            (explained-Keeps view "failed to rename" (os.remove _)
              (λ x. judged (os.rename _ dest x)) (still.remove _)
              (judged-Keeps view (λ x. os.rename _ dest x) (still.rename _ dest)))
            (λ v. saved-Still artifacts dest))
        (os.output "uname" ("-m" ∷ []) w).1
      ∙ still.output "uname" ("-m" ∷ []) w

  copy_found-Keeps :
      (src dest : String) (x : Stat × W) → view (Rootfs.copy_found os src dest x).1 ≡ view x.1
  copy_found-Keeps src dest (missing, w) = refl
  copy_found-Keeps src dest (unreadable, w) = refl
  copy_found-Keeps src dest (found, w) = still.running "cp" _ w refl refl

  try_copy-Keeps : (src dest : String) → Keeps view (Rootfs.try_copy os src dest)
  try_copy-Keeps src dest w = copy_found-Keeps src dest (os.stat src w) ∙ still.stat src w

  well-Keeps {ℓ} : {A : Type ℓ} (x : Outcome A × W) → view (Rootfs.well os x).1 ≡ view x.1
  well-Keeps (done a, w) = refl
  well-Keeps (failed e, w) = refl

  or_else-Keeps :
      (next : W → Bool × W) (x : Bool × W)
      → Keeps view next
      → view (Rootfs.or_else os next x).1 ≡ view x.1
  or_else-Keeps next (true, w) h = refl
  or_else-Keeps next (false, w) h = h w

  try_bases-Keeps : (dest : String) (ps : List String) → Keeps view (try_bases os dest ps)
  unfolding try_bases
  try_bases-Keeps dest [] w = refl
  try_bases-Keeps dest (p ∷ ps) w =
      or_else-Keeps (try_bases os dest ps) (Rootfs.try_copy os p dest w) (try_bases-Keeps dest ps)
      ∙ try_copy-Keeps p dest w

module _ {W : Type 0} (os : Os W) (table : W → List Mounted) (law : IsMountTable os table) where
  abbrev busy : W → List String
  busy = in_use os table law

  abbrev still : IsStill os busy
  still = in_use-IsStill os table law

  convert-Keeps : (tar ext4 : String) (size : ℕ) → Keeps busy (convert_tar_to_ext4 os tar ext4 size)
  unfolding convert_tar_to_ext4
  convert-Keeps tar ext4 size =
      bind-Keeps busy (format_ext4 os ext4 size) (λ u. mounted os ext4 _ (os.remove ext4) _)
        (format_ext4-Keeps os busy still ext4 size)
        (λ u. mounted-Keeps os table law ext4 _ (os.remove ext4) _ (law.still.remove ext4) (
          must-Keeps os table law.still "tar extract failed" (λ w. w) "tar" _ (λ w. refl) refl
            refl))

  create_minimal-Keeps :
      (path : String) (size : ℕ) → Keeps busy (create_minimal_rootfs os path size)
  unfolding create_minimal_rootfs
  create_minimal-Keeps path size =
      bind-Keeps busy (format_ext4 os path size) (λ u. mounted os path _ (os.remove path) _)
        (format_ext4-Keeps os busy still path size)
        (λ u.
          mounted-Keeps os table law path _ (os.remove path) _ (law.still.remove path)
            (bootstrap-Keeps os table law.still _))

  convert_found-Keeps :
      (tar dest : String) (size : ℕ) (x : Stat × W)
      → busy (Rootfs.convert_found os tar dest size x).1 ≡ busy x.1
  convert_found-Keeps tar dest size (missing, w) = refl
  convert_found-Keeps tar dest size (unreadable, w) = refl
  convert_found-Keeps tar dest size (found, w) =
      well-Keeps os busy still (convert_tar_to_ext4 os tar dest size w)
      ∙ convert-Keeps tar dest size w

  find-Keeps :
      (artifacts : String) (spec : SandboxSpec) (dest : String)
      → Keeps busy (find_rootfs os artifacts spec dest)
  unfolding find_rootfs
  find-Keeps artifacts spec dest w =
      or_else-Keeps os busy still (try_bases os dest _) _ (try_bases-Keeps os busy still dest _)
      ∙ or_else-Keeps os busy still (Rootfs.try_tar os _ dest _) _
          (λ v. convert_found-Keeps _ dest _ (os.stat _ v) ∙ still.stat _ v)
      ∙ try_copy-Keeps os busy still _ dest w

  minimal_after-Keeps :
      (dest : String) (size : ℕ) (x : Outcome (Unit {0}) × W)
      → busy (Rootfs.minimal_after os dest size x).1 ≡ busy x.1
  minimal_after-Keeps dest size (done u, w) = refl
  minimal_after-Keeps dest size (failed e, w) =
      explained-Keeps busy "failed to create minimal rootfs" (λ x. x)
        (create_minimal_rootfs os dest size) (λ x. refl) (create_minimal-Keeps dest size) w

  provided-Keeps :
      (artifacts : String) (spec : SandboxSpec) (dest : String) (x : Bool × W)
      → busy (Rootfs.provided os artifacts spec dest x).1 ≡ busy x.1
  provided-Keeps artifacts spec dest (true, w) = refl
  provided-Keeps artifacts spec dest (false, w) =
      minimal_after-Keeps dest _ (download_base_rootfs os artifacts dest w)
      ∙ download-Keeps os busy still artifacts dest w

  injected-Still :
      (envd : String) (spec : SandboxSpec) (dest : String)
      → Still busy (Rootfs.injected os envd spec dest)
  injected-Still envd spec dest w = elim (Bool-cases (envd == "")) [
    | inl e ↦ rw e refl
    | inr e ↦ rw e (inject_envd-Keeps os table law envd dest spec w)
  ]

-- Whatever `prepareRootfs` finds and whatever fails on its way, a copy, a download, a conversion, a
-- mount, an umount or the injection of envd: the mount points in use are those of before. What it has
-- mounted it has unmounted again, but for what a mount or an umount that returned an error left behind,
-- and it unmounts nothing else. The other calls do not touch the mount table.
pub prepare_rootfs-mounts :
    {W : Type 0} (os : Os W) (table : W → List Mounted) (artifacts envd : String)
    (spec : SandboxSpec) (dest : String) (w : W)
    → IsMountTable os table
    → live (table (prepare_rootfs os artifacts envd spec dest w).1) ≡ live (table w)
unfolding prepare_rootfs
prepare_rootfs-mounts os table artifacts envd spec dest w law =
    bind-Keeps (in_use os table law)
      (λ x. Rootfs.provided os artifacts spec dest (find_rootfs os artifacts spec dest x))
      (λ u. changing (Rootfs.injected os envd spec dest))
      (λ x.
        provided-Keeps os table law artifacts spec dest (find_rootfs os artifacts spec dest x)
        ∙ find-Keeps os table law artifacts spec dest x)
      (λ u. injected-Still os table law envd spec dest) w
