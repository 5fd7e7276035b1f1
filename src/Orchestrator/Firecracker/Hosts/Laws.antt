-- ===== src/Orchestrator/Firecracker/Hosts/Laws.antt =====
-- The entries of internal/orchestrator/runtime_firecracker.go in /etc/hosts.
use open_e2b.Prelude.{
  Bool, true, not, List, [], ◌∷◌, ◌++◌, All, ◌≡◌, ◌≢◌, refl, sym, ap, ◌∙◌, nat_beq, nat_beq_iff,
  Bool-cases, inl, inr, arith,
}
use mathlib.Core.List.{append-nil, append_assoc}
use open_e2b.Prelude.Bytes.{Bytes, has, has_iff, has_prefix, split, join, keep}
use open_e2b.Prelude.{String, Option, none}
use open_e2b.Prelude.Action.{done}
use open_e2b.Orchestrator.Firecracker.{Os, explained, judged}
use open_e2b.Orchestrator.Firecracker.Cases.{judged-done, explained-done, continue-done}
use open_e2b.Orchestrator.Firecracker.Hosts.{entry, without, add_hosts_entry, remove_hosts_entry}

-- A line has no line break, and a file of lines ends with one.
abbrev pub IsLine : Bytes → Type 0
IsLine l = All (λ c. c ≢ 10) l

unfoldable pub file_of : List Bytes → Bytes
file_of [] = []
file_of (l ∷ ls) = let rest = file_of ls in l ++ 10 ∷ rest

split-line : (l rest : Bytes) → IsLine l → split 10 (l ++ 10 ∷ rest) ≡ l ∷ split 10 rest
unfolding split
split-line [] rest h = refl
split-line (c ∷ l) rest (h, hs) = elim (Bool-cases (nat_beq c 10)) [
  | inl e ↦ absurd (h ((nat_beq_iff c 10).0 e))
  | inr e ↦ rw (e, split-line l rest hs) refl
]

split-file_of : (ls : List Bytes) → All IsLine ls → split 10 (file_of ls) ≡ ls ++ [] ∷ []
unfolding file_of split
split-file_of [] h = refl
split-file_of (l ∷ ls) (h, hs) = rw (split-line l (file_of ls) h, split-file_of ls hs) refl

join-lines : (ls : List Bytes) → join 10 (ls ++ [] ∷ []) ≡ file_of ls
unfolding join file_of
join-lines [] = refl
join-lines (l ∷ []) = refl
join-lines (l ∷ k ∷ ls) = ap (λ x. l ++ 10 ∷ x) (join-lines (k ∷ ls))

keep-append {ℓ} :
    {A : Type ℓ} (p : A → Bool) (xs ys : List A) → keep p (xs ++ ys) ≡ keep p xs ++ keep p ys
unfolding keep
keep-append p [] ys = refl
keep-append p (x ∷ xs) ys = elim (Bool-cases (p x)) [
  | inl e ↦ rw (e, keep-append p xs ys) refl
  | inr e ↦ rw (e, keep-append p xs ys) refl
]

kept_end : (id : Bytes) → id ≢ [] → keep (λ line. not (has line id)) ([] ∷ []) ≡ [] ∷ []
unfolding keep has has_prefix
kept_end [] given = absurd (given refl)
kept_end (b ∷ t) given = refl

-- Removing an ID from a file of lines leaves the lines without it.
without-file_of :
    (id : Bytes) (ls : List Bytes)
    → All IsLine ls
    → id ≢ []
    → without id (file_of ls) ≡ file_of (keep (λ line. not (has line id)) ls)
unfolding without
without-file_of id ls h given =
    rw (split-file_of ls h, keep-append, kept_end id given)
      (join-lines (keep (λ line. not (has line id)) ls))

file_of-append :
    (ls : List Bytes) (l : Bytes) → file_of ls ++ (l ++ 10 ∷ []) ≡ file_of (ls ++ l ∷ [])
unfolding file_of
file_of-append [] l = refl
file_of-append (k ∷ ls) l =
    append_assoc k (10 ∷ file_of ls) (l ++ 10 ∷ []) ∙ ap (λ x. k ++ 10 ∷ x) (file_of-append ls l)

All-append {ℓ κ} :
    {A : Type ℓ} (P : A → Type κ) (xs ys : List A) → All P xs → All P ys → All P (xs ++ ys)
All-append P [] ys h k = k
All-append P (x ∷ xs) ys (h, hs) k = (h, All-append P xs ys hs k)

has-entry : (ip id : Bytes) → has (ip ++ 9 ∷ id) id ≡ true
has-entry ip id = (has_iff (ip ++ 9 ∷ id) id).1 (
  ip ++ 9 ∷ [],
  [],
  sym (append_assoc ip (9 ∷ []) (id ++ []) ∙ ap (λ x. ip ++ 9 ∷ x) (append-nil id)),
)

IsLine-entry : (ip id : Bytes) → IsLine ip → IsLine id → IsLine (ip ++ 9 ∷ id)
IsLine-entry ip id h k = All-append (λ c. c ≢ 10) ip (9 ∷ id) h (ground arith, k)

entry-line : (ip id : Bytes) → entry ip id ≡ (ip ++ 9 ∷ id) ++ 10 ∷ []
unfolding entry
entry-line ip id = sym (append_assoc ip (9 ∷ id) (10 ∷ []))

entry_dropped : (ip id : Bytes) → keep (λ l. not (has l id)) ((ip ++ 9 ∷ id) ∷ []) ≡ []
unfolding keep
entry_dropped ip id = rw (has-entry ip id) refl

-- Adding an entry to a file of lines, and removing it, leaves the lines without the ID.
without-entry :
    (ip id : Bytes) (ls : List Bytes)
    → All IsLine ls
    → IsLine ip
    → IsLine id
    → id ≢ []
    → without id (file_of ls ++ entry ip id) ≡ file_of (keep (λ l. not (has l id)) ls)
without-entry ip id ls h a b given =
    let line = ip ++ 9 ∷ id in
    let all = All-append IsLine ls (line ∷ []) h (IsLine-entry ip id a b, tt) in
    ap (λ x. without id (file_of ls ++ x)) (entry-line ip id)
    ∙ ap (without id) (file_of-append ls line)
    ∙ without-file_of id (ls ++ line ∷ []) all given
    ∙ ap file_of (
        keep-append (λ l. not (has l id)) ls (line ∷ [])
        ∙ ap (λ x. keep (λ l. not (has l id)) ls ++ x) (entry_dropped ip id)
        ∙ append-nil (keep (λ l. not (has l id)) ls))

-- The file /etc/hosts of a world: what is appended goes to its end, what is read is what it holds, and
-- what is written takes its place, where the call returns no error.
pub record HasFile {W : Type 0} (os : Os W) (view : W → Bytes) : Type 0 where
  pub opens : (w : W) → view (os.open_append "/etc/hosts" w).1 ≡ view w
  pub appends :
      (text : Bytes) (w : W)
      → (os.append_open "/etc/hosts" text w).0 ≡ none
      → view (os.append_open "/etc/hosts" text w).1 ≡ view w ++ text
  pub reads :
      (text : Bytes) (w : W)
      → (os.read_file "/etc/hosts" w).0 ≡ done text
      → (text ≡ view w) × (view (os.read_file "/etc/hosts" w).1 ≡ view w)
  pub writes :
      (text : Bytes) (w : W)
      → (os.write_file "/etc/hosts" text w).0 ≡ none
      → view (os.write_file "/etc/hosts" text w).1 ≡ text

module _ {W : Type 0} (os : Os W) (view : W → Bytes) (fs : HasFile os view) where
  -- A write that ended well, after whatever call.
  written :
      (what : String) (x : Option String × W) (t : Bytes)
      → (x.0 ≡ none → view x.1 ≡ t)
      → (explained what (λ y. y) (judged x)).0 ≡ done tt
      → view (explained what (λ y. y) (judged x)).1 ≡ t
  written what x t law e =
      let (a, p) = explained-done what (λ y. y) (judged x) tt e in
      let (b, q) = judged-done x tt a in ap view (p ∙ q) ∙ law b

  add-view :
      (id ip : String) (w : W)
      → (add_hosts_entry os id ip w).0 ≡ done tt
      → view (add_hosts_entry os id ip w).1 ≡ view w ++ entry (os.bytes ip) (os.bytes id)
  unfolding add_hosts_entry
  add-view id ip w e =
      let text = entry (os.bytes ip) (os.bytes id) in
      let opened =
        explained "failed to open /etc/hosts" (λ x. x) (judged (os.open_append "/etc/hosts" w)) in
      let (u, p, q, r) =
        continue-done opened.0
          (λ v x.
            explained "failed to write to /etc/hosts" (λ y. y)
              (judged (os.append_open "/etc/hosts" text x)))
          opened.1 tt e in
      let (a, b) =
        explained-done "failed to open /etc/hosts" (λ x. x) (judged (os.open_append "/etc/hosts" w))
          u p in
      let (c, d) = judged-done (os.open_append "/etc/hosts" w) u a in
      ap (λ x. view x.1) r
      ∙ written "failed to write to /etc/hosts" (os.append_open "/etc/hosts" text opened.1)
          (view opened.1 ++ text) (fs.appends text opened.1) q
      ∙ ap (λ x. view x ++ text) (b ∙ d)
      ∙ ap (λ x. x ++ text) (fs.opens w)

  remove-view :
      (id : String) (w : W)
      → (remove_hosts_entry os id w).0 ≡ done tt
      → view (remove_hosts_entry os id w).1 ≡ without (os.bytes id) (view w)
  unfolding remove_hosts_entry
  remove-view id w e =
      let r = explained "failed to read /etc/hosts" (λ x. x) (os.read_file "/etc/hosts" w) in
      let (text, p, q, s) =
        continue-done r.0
          (λ t x.
            explained "failed to write /etc/hosts" (λ y. y)
              (judged (os.write_file "/etc/hosts" (without (os.bytes id) t) x)))
          r.1 tt e in
      let (a, b) =
        explained-done "failed to read /etc/hosts" (λ x. x) (os.read_file "/etc/hosts" w) text p in
      let new = without (os.bytes id) text in
      ap (λ x. view x.1) s
      ∙ written "failed to write /etc/hosts" (os.write_file "/etc/hosts" new r.1) new
          (fs.writes new r.1) q
      ∙ ap (without (os.bytes id)) (fs.reads text w a).0

-- In a file of lines the entry for a sandbox is added and removed again, both without an error: what is
-- left are the lines of before that do not contain the ID, in their order, each whole; the new entry is
-- gone, and so is every other line with the ID somewhere in it. The ID is not empty, and neither it nor
-- the address has a line break.
pub hosts_round_trip :
    {W : Type 0} (os : Os W) (view : W → Bytes) (id ip : String) (ls : List Bytes) (w : W)
    → HasFile os view
    → view w ≡ file_of ls
    → All IsLine ls
    → IsLine (os.bytes ip)
    → IsLine (os.bytes id)
    → os.bytes id ≢ []
    → (add_hosts_entry os id ip w).0 ≡ done tt
    → (remove_hosts_entry os id (add_hosts_entry os id ip w).1).0 ≡ done tt
    → view (remove_hosts_entry os id (add_hosts_entry os id ip w).1).1
      ≡ file_of (keep (λ l. not (has l (os.bytes id))) ls)
hosts_round_trip os view id ip ls w fs start lines a b given added removed =
    remove-view os view fs id (add_hosts_entry os id ip w).1 removed
    ∙ ap (without (os.bytes id))
        (add-view os view fs id ip w added ∙ ap (λ x. x ++ entry (os.bytes ip) (os.bytes id)) start)
    ∙ without-entry (os.bytes ip) (os.bytes id) ls lines a b given
