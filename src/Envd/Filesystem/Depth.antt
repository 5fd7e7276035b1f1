-- ===== src/Envd/Filesystem/Depth.antt =====
-- `ListDir` of pkg/envd/filesystem/service.go with a depth ends.
use open_e2b.Prelude.{
  ℕ, zero, suc, ◌+◌, ◌<◌, ◌≤◌, String, Bool, true, false, ◌&&◌, ◌≡◌, refl, ap, ◌∙◌, List, [], ◌∷◌,
  Option, none, some, arith, ltb, leb,
}
use open_e2b.Prelude.Action.{Outcome, done, failed}
use open_e2b.Envd.Filesystem
use open_e2b.Envd.Filesystem.{
  FileInfo, DirEntry, FileSystem, Walk, then_walk, goes_down, next_depth, visit, walk_entries,
  walk_found, walk_dir, list_dir,
}

suc_add : (n k : ℕ) → suc n + k ≡ suc (n + k)
suc_add n k = omega arith

-- One walk, whatever further fuel `k` there is.
abbrev pub Ends : (ℕ → Option Walk) → Type 0
Ends f = (w : Walk) × ((k : ℕ) → f k ≡ some w)

after_walk-Ends :
    (w : Walk) (error : Option String) (g : ℕ → Option Walk)
    → Ends g
    → Ends (λ k. Filesystem.after_walk w error (g k))
after_walk-Ends w none g (x, l) =
    (Filesystem.append_walk w.entries x, λ k. ap (Filesystem.continue_walk w.entries) (l k))
after_walk-Ends w (some e) g r = (w, λ k. refl)

then_walk-Ends : (f g : ℕ → Option Walk) → Ends f → Ends g → Ends (λ k. then_walk (f k) (g k))
then_walk-Ends f g (w, h) r =
    let (x, l) = after_walk-Ends w w.error g r in (x, λ k. ap (λ v. then_walk v (g k)) (h k) ∙ l k)

module _ {F : Type 0} (fs : FileSystem F) (s : F) where
  visit-Ends :
      (below : ℕ → String → Option Walk) (path : String) (down : Bool) (info : Outcome FileInfo)
      (rest : ℕ → Option Walk)
      → (down ≡ true → Ends (λ k. below k path))
      → Ends rest
      → Ends (λ k. visit fs s (below k) path down info (rest k))
  visit-Ends below path down (failed e) rest h r = r
  visit-Ends below path true (done i) rest h r =
      let (w, l) = then_walk-Ends (λ k. below k path) rest (h refl) r in
      (_, λ k. ap (Filesystem.cons_entry (Filesystem.to_entry_info fs s path i)) (l k))
  visit-Ends below path false (done i) rest h (w, l) =
      (_, λ k. ap (Filesystem.cons_entry (Filesystem.to_entry_info fs s path i)) (l k))

  entries-Ends :
      (below : ℕ → String → Option Walk) (root : String) (down : Bool) (es : List DirEntry)
      → (down ≡ true → (path : String) → Ends (λ k. below k path))
      → Ends (λ k. walk_entries fs s (below k) root down es)
  unfolding walk_entries
  entries-Ends below root down [] h = (record { entries = []; error = none }, λ k. refl)
  entries-Ends below root down (e ∷ es) h =
      visit-Ends below (fs.join root e.name) (e.is_dir && down) e.info
        (λ k. walk_entries fs s (below k) root down es)
        (λ b. h (ground (arith, b)) (fs.join root e.name)) (entries-Ends below root down es h)

  found-Ends :
      (below : ℕ → String → Option Walk) (root : String) (down : Bool) (r : Outcome (List DirEntry))
      → (down ≡ true → (path : String) → Ends (λ k. below k path))
      → Ends (λ k. walk_found fs s (below k) root down r)
  found-Ends below root down (failed e) h = (record { entries = []; error = some e }, λ k. refl)
  found-Ends below root down (done es) h = entries-Ends below root down es h

  walk_dir-Ends :
      (fuel max current : ℕ) (root : String)
      → 0 < max
      → max < 4294967296
      → current < max
      → max ≤ fuel + current
      → Ends (λ k. walk_dir fs s (fuel + k) max current root)
  unfolding walk_dir
  walk_dir-Ends zero max current root pos small low enough = ground (arith, low, enough)
  walk_dir-Ends (suc fuel) max current root pos small low enough =
      let here : (ltb 0 max && leb max current) ≡ false = ground arith in
      let (w, h) =
        found-Ends (λ k. walk_dir fs s (fuel + k) max (next_depth current)) root
          (goes_down max current) (fs.read_dir s root)
          (λ down path.
            let deeper : next_depth current ≡ current + 1 = ground arith in
            let below : current + 1 < max = ground (arith, down) in
            walk_dir-Ends fuel max (next_depth current) path pos small
              (ground (arith, deeper, below)) (ground (arith, deeper, enough))) in
      (w, λ k. ap (λ n. walk_dir fs s n max current root) (suc_add fuel k) ∙ rw here (h k))

-- `ListDir` with a depth d, from 1 up to 2 ^ 32 - 1, ends on any file system, also one whose
-- directories are nested without end: d levels of calls suffice, and any further fuel gives the same
-- entries and the same error.
pub list_dir-Ends :
    {F : Type 0} (fs : FileSystem F) (s : F) (path : String) (depth : ℕ)
    → 0 < depth
    → depth < 4294967296
    → Ends (λ k. list_dir fs s (depth + k) path depth)
unfolding list_dir
list_dir-Ends fs s path depth pos small =
    walk_dir-Ends fs s depth depth 0 path pos small pos (omega arith)
