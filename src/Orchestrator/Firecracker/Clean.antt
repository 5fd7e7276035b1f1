-- ===== src/Orchestrator/Firecracker/Clean.antt =====
-- What a failed `CreateSandbox` of internal/orchestrator/runtime_firecracker.go leaves behind.
use open_e2b.Prelude.{ℕ, String, ◌≡◌, ◌≢◌, refl, ap, sym, ◌∙◌, ◌⊎◌, inl, inr, arith}
use open_e2b.Prelude.Action.{Outcome, done, failed, Action, continue, calling, ◌>>=◌, ◌>>◌}
use open_e2b.Orchestrator.Types.{SandboxSpec}
use open_e2b.Orchestrator.Firecracker.{Os, Sdk, FirecrackerRuntime, explained, judged}
use open_e2b.Orchestrator.Firecracker.Rootfs.{prepare_rootfs}
use open_e2b.Orchestrator.Firecracker.Methods.{
  Booted, boot, find_binary, find_kvm, find_kernel, make_sandbox_dir, make_rootfs, make_log,
  make_machine, start_machine, settle, close_and_remove, file_of, remove_dir, config_of,
}

done≢failed : {A : Type 0} {a : A} {e : String} → ◌≢◌ {A = Outcome A} (done a) (failed e)
done≢failed p = ground arith

abbrev error_of : {A : Type 0} → Outcome A → String
error_of (done a) = ""
error_of (failed e) = e

refail :
    {A B : Type 0} {g e : String}
    → ◌≡◌ {A = Outcome A} (failed g) (failed e)
    → ◌≡◌ {A = Outcome B} (failed g) (failed e)
refail p = ap failed (ap error_of p)

-- `last` is the last thing done on an error.
module _ {W : Type 0} (last : W → W) where
  abbrev Cleans : {A : Type 0} → Action W A → Type 0
  Cleans m = (w : W) (e : String) → (m w).0 ≡ failed e → (v : W) × ((m w).1 ≡ last v)

  -- An error comes from `n`, with its effects, or ends with `last`.
  abbrev Splits : {A B : Type 0} → Action W A → Action W B → Type 0
  Splits m n =
      (w : W) (e : String)
      → (m w).0 ≡ failed e
      → (((n w).0 ≡ failed e) × ((m w).1 ≡ (n w).1)) ⊎ ((v : W) × ((m w).1 ≡ last v))

  sure-Cleans : {A : Type 0} (f : W → A × W) → Cleans (calling f)
  sure-Cleans f w e p = absurd (done≢failed p)

  explained-Cleans :
      {A : Type 0} (what : String) (undo : W → W) (m : Action W A)
      → ((w : W) → (v : W) × (undo w ≡ last v))
      → Cleans (λ w. explained what undo (m w))
  explained-Cleans {A = A} what undo m h w e p = at (m w) p
    where
      at :
          (x : Outcome A × W)
          → (explained what undo x).0 ≡ failed e
          → (v : W) × ((explained what undo x).1 ≡ last v)
      at (done a, v) q = absurd (done≢failed q)
      at (failed f, v) q = h v

  bind-Cleans :
      {A B : Type 0} (m : Action W A) (f : A → Action W B)
      → Cleans m
      → ((a : A) → Cleans (f a))
      → Cleans (m >>= f)
  bind-Cleans {A = A} m f h k w e p = at (m w).0 (m w).1 (h w) p
    where
      at :
          (r : Outcome A) (y : W)
          → ((g : String) → r ≡ failed g → (v : W) × (y ≡ last v))
          → (continue r f y).0 ≡ failed e
          → (v : W) × ((continue r f y).1 ≡ last v)
      at (done a) y hy q = k a y e q
      at (failed g) y hy q = hy g refl

  begin-Splits :
      {A B : Type 0} (m : Action W A) (f : A → Action W B)
      → ((a : A) → Cleans (f a))
      → Splits (m >>= f) m
  begin-Splits {A = A} m f k w e p = at (m w).0 (m w).1 p
    where
      at :
          (r : Outcome A) (y : W)
          → (continue r f y).0 ≡ failed e
          → ((r ≡ failed e) × ((continue r f y).1 ≡ y)) ⊎ ((v : W) × ((continue r f y).1 ≡ last v))
      at (done a) y q = inr (k a y e q)
      at (failed g) y q = inl (refail q, refl)

  bind-Splits :
      {A B C : Type 0} (m : Action W A) (f : A → Action W B) (g : A → Action W C)
      → ((a : A) → Splits (f a) (g a))
      → Splits (m >>= f) (m >>= g)
  bind-Splits {A = A} m f g k w e p = at (m w).0 (m w).1 p
    where
      at :
          (r : Outcome A) (y : W)
          → (continue r f y).0 ≡ failed e
          → (((continue r g y).0 ≡ failed e) × ((continue r f y).1 ≡ (continue r g y).1))
            ⊎ ((v : W) × ((continue r f y).1 ≡ last v))
      at (done a) y q = k a y e q
      at (failed h) y q = inl (refail q, refl)

module _ {W V : Type 0} (os : Os W) (sdk : Sdk W V) (fuel : ℕ) (r : FirecrackerRuntime V)
    (spec : SandboxSpec) where
  -- The first steps of `CreateSandbox`; the last of them makes the directory of the sandbox.
  abbrev pub begun : Action W (Unit {0})
  begun = do
    binary ← find_binary os sdk fuel
    find_kvm os sdk fuel
    find_kernel os sdk fuel r
    make_sandbox_dir os sdk fuel r spec

  abbrev removal : W → W
  removal = remove_dir os sdk fuel r spec

  settle-done : (vm : V) (w : W) → (b : Booted V) × ((settle os sdk fuel spec vm w).0 ≡ done b)
  unfolding settle
  settle-done vm w = (_, refl)

  settle-Cleans : (vm : V) → Cleans removal (settle os sdk fuel spec vm)
  settle-Cleans vm w e p = let (b, q) = settle-done vm w in absurd (done≢failed (sym q ∙ p))

  started-Cleans :
      (vm : V) → Cleans removal (start_machine os sdk fuel r spec vm >> settle os sdk fuel spec vm)
  started-Cleans vm =
      bind-Cleans removal (start_machine os sdk fuel r spec vm) (λ u. settle os sdk fuel spec vm)
        (explained-Cleans removal "failed to start Firecracker VM"
          (close_and_remove os sdk fuel r spec) (λ w. judged (sdk.start vm w))
          (λ w. (os.close_file (file_of os sdk fuel r spec.sandbox_id "firecracker.log") w, refl)))
        (λ u. settle-Cleans vm)

  abbrev from_machine : String → Action W (Booted V)
  from_machine binary = make_machine os sdk fuel r spec binary >>= λ vm.
      start_machine os sdk fuel r spec vm >> settle os sdk fuel spec vm

  machine-Cleans : (binary : String) → Cleans removal (from_machine binary)
  machine-Cleans binary =
      bind-Cleans removal (make_machine os sdk fuel r spec binary)
        (λ vm. start_machine os sdk fuel r spec vm >> settle os sdk fuel spec vm)
        (explained-Cleans removal "failed to create Firecracker machine"
          (close_and_remove os sdk fuel r spec)
          (sdk.new_machine (config_of os sdk fuel r spec binary))
          (λ w. (os.close_file (file_of os sdk fuel r spec.sandbox_id "firecracker.log") w, refl)))
        started-Cleans

  abbrev from_files : String → Action W (Booted V)
  from_files binary =
      make_rootfs os sdk fuel r spec >> (make_log os sdk fuel r spec >> from_machine binary)

  files-Cleans : (binary : String) → Cleans removal (from_files binary)
  files-Cleans binary =
      bind-Cleans removal (make_rootfs os sdk fuel r spec)
        (λ u. make_log os sdk fuel r spec >> from_machine binary)
        (explained-Cleans removal "failed to prepare rootfs" removal
          (prepare_rootfs os r.artifacts_dir r.envd_binary_path spec
            (file_of os sdk fuel r spec.sandbox_id "rootfs.ext4"))
          (λ w. (w, refl)))
        (λ u.
          bind-Cleans removal (make_log os sdk fuel r spec) (λ v. from_machine binary)
            (explained-Cleans removal "failed to create log file" removal
              (λ w.
                judged (os.create_file (file_of os sdk fuel r spec.sandbox_id "firecracker.log") w))
              (λ w. (w, refl)))
            (λ v. machine-Cleans binary))

  abbrev from_dir : String → Action W (Booted V)
  from_dir binary = make_sandbox_dir os sdk fuel r spec >> from_files binary

  -- A boot that fails either fails in the first steps, or removes the directory last.
  pub boot-Splits : Splits removal (boot os sdk fuel r spec) begun
  unfolding boot
  boot-Splits =
      bind-Splits removal (find_binary os sdk fuel)
        (λ b. find_kvm os sdk fuel >> (find_kernel os sdk fuel r >> from_dir b))
        (λ b.
          find_kvm os sdk fuel
          >> (find_kernel os sdk fuel r >> make_sandbox_dir os sdk fuel r spec))
        (λ b.
          bind-Splits removal (find_kvm os sdk fuel) (λ u. find_kernel os sdk fuel r >> from_dir b)
            (λ u. find_kernel os sdk fuel r >> make_sandbox_dir os sdk fuel r spec)
            (λ u.
              bind-Splits removal (find_kernel os sdk fuel r) (λ v. from_dir b)
                (λ v. make_sandbox_dir os sdk fuel r spec)
                (λ v.
                  begin-Splits removal (make_sandbox_dir os sdk fuel r spec) (λ x. from_files b)
                    (λ x. files-Cleans b))))
