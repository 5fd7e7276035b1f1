-- ===== src/Envd/Process/Index.antt =====
-- The tags of the table of processes.
use open_e2b.Prelude.{
  ℕ, String, ◌≡◌, ◌≢◌, ◌⊎◌, inl, inr, List, [], ◌∷◌, ◌++◌, Option, none, some, arith, string_eq,
  nat_eq, ==_iff, Bool-cases, ap, sym, ◌∙◌, ◌==◌,
}
use mathlib.Core.Option.{some-injective}
use open_e2b.Prelude.GoMap.{GoMap, get, remove, get-put, get-remove, get-remove_kept}
use open_e2b.Envd.Process.{Process, Service, new_service, register, finish, index_tag, drop_tag}

-- The table with the processes that have been registered and whose end has not been handled yet. A
-- process may get any ID, also one that the table still has; the end of a process is handled once.
pub data Step : Service → List Process → Service → List Process → Type 0 where
  starts : {s : Service} {live : List Process} (p : Process) → Step s live (register p s) (p ∷ live)
  ends :
      {s : Service} (before : List Process) (p : Process) (after : List Process)
      → Step s (before ++ p ∷ after) (finish p s) (before ++ after)

pub data Reach : Service → List Process → Type 0 where
  here : Reach new_service []
  next :
      {s t : Service} {live left : List Process} → Reach s live → Step s live t left → Reach t left

abbrev pub IsLive : Process → List Process → Type 0
IsLive p [] = ⊥
IsLive p (q ∷ live) = (p ≡ q) ⊎ IsLive p live

-- Each process is filed under its ID, each entry of the index has the tag, and both lead to processes
-- that are still there.
pub record Indexed (s : Service) (live : List Process) : Type 0 where
  pub filed : (n : ℕ) (p : Process) → get s.processes n ≡ some p → p.info.pid ≡ n
  pub tagged : (t : String) (p : Process) → get s.tag_index t ≡ some p → p.info.tag ≡ some t
  pub filed_live : (n : ℕ) (p : Process) → get s.processes n ≡ some p → IsLive p live
  pub tagged_live : (t : String) (p : Process) → get s.tag_index t ≡ some p → IsLive p live

new_service-Indexed : Indexed new_service []
unfolding new_service get
new_service-Indexed = record {
  filed = λ n p h. cc;
  tagged = λ t p h. cc;
  filed_live = λ n p h. cc;
  tagged_live = λ t p h. cc;
}

-- What is in a list and is not the one element stays when the element is taken out.
IsLive-rest :
    (xs : List Process) (y : Process) (ys : List Process) (x : Process)
    → IsLive x (xs ++ y ∷ ys)
    → x ≢ y
    → IsLive x (xs ++ ys)
IsLive-rest [] y ys x (inl e) other = absurd (other e)
IsLive-rest [] y ys x (inr m) other = m
IsLive-rest (z ∷ xs) y ys x (inl e) other = inl e
IsLive-rest (z ∷ xs) y ys x (inr m) other = inr (IsLive-rest xs y ys x m other)

-- An entry of the index after a write comes from the write or from before.
index_tag-get :
    (tag : Option String) (p q : Process) (m : GoMap String Process) (t : String)
    → get (index_tag tag p m) t ≡ some q
    → ((tag ≡ some t) × (p ≡ q)) ⊎ (get m t ≡ some q)
index_tag-get none p q m t h = inr h
index_tag-get (some u) p q m t h = elim (Bool-cases (u == t)) [
  | inl b ↦ inl (ap some ((==_iff u t).0 b), some-injective p q (rw (get-put m u t p, b) at h))
  | inr b ↦ inr (rw (get-put m u t p, b) at h)
]

-- An entry that is left after a deletion was there, under another tag.
drop_tag-get :
    (tag : Option String) (q : Process) (m : GoMap String Process) (t : String)
    → get (drop_tag tag m) t ≡ some q
    → (get m t ≡ some q) × (tag ≢ some t)
drop_tag-get none q m t h = (h, λ e. cc)
drop_tag-get (some u) q m t h =
    (ground (arith, get-remove m u t), λ e. ground (arith, get-remove m u t, ==_iff u t))

module _ (s : Service) (p : Process) where
  register-Indexed : (live : List Process) → Indexed s live → Indexed (register p s) (p ∷ live)
  unfolding register
  register-Indexed live i = record {
    filed = λ n q h.
        ground (arith, get-put s.processes p.info.pid n p, ==_iff p.info.pid n, i.filed n q);
    tagged = λ t q h. elim (index_tag-get p.info.tag p q s.tag_index t h) [
      | inl (e, same) ↦ rw (← same) e
      | inr old ↦ i.tagged t q old
    ];
    filed_live = λ n q h. elim (Bool-cases (p.info.pid == n)) [
      | inl b ↦ (inl (sym (some-injective p q (rw (get-put s.processes p.info.pid n p, b) at h))))
      | inr b ↦ (inr (i.filed_live n q (rw (get-put s.processes p.info.pid n p, b) at h)))
    ];
    tagged_live = λ t q h. elim (index_tag-get p.info.tag p q s.tag_index t h) [
      | inl (e, same) ↦ (inl (sym same))
      | inr old ↦ (inr (i.tagged_live t q old))
    ];
  }

  finish-Indexed :
      (before after : List Process)
      → Indexed s (before ++ p ∷ after)
      → Indexed (finish p s) (before ++ after)
  unfolding finish
  finish-Indexed before after i = record {
    filed = λ n q e. i.filed n q (kept n q e).0;
    tagged = λ t q e. i.tagged t q (drop_tag-get p.info.tag q s.tag_index t e).0;
    filed_live = λ n q e.
        let (old, other) = kept n q e in
        IsLive-rest before p after q (i.filed_live n q old)
          (λ same. other (sym (ap (λ x. x.info.pid) same) ∙ i.filed n q old));
    tagged_live = λ t q e.
        let (old, other) = drop_tag-get p.info.tag q s.tag_index t e in
        IsLive-rest before p after q (i.tagged_live t q old)
          (λ same. other (sym (ap (λ x. x.info.tag) same) ∙ i.tagged t q old));
  }
    where
      kept :
          (n : ℕ) (q : Process)
          → get (remove s.processes p.info.pid) n ≡ some q
          → (get s.processes n ≡ some q) × (p.info.pid ≢ n)
      kept n q e = get-remove_kept s.processes p.info.pid n q e

-- In every state that the table of processes reaches, whatever IDs the system gives out, a process is
-- filed under its ID, a tag leads to a process that has it, and no entry of the table or of the index
-- leads to a process whose end has been handled.
pub Reach-Indexed : {s : Service} {live : List Process} → Reach s live → Indexed s live
Reach-Indexed here = new_service-Indexed
Reach-Indexed (next {s = s} {live = live} r (starts p)) =
    register-Indexed s p live (Reach-Indexed r)
Reach-Indexed (next {s = s} r (ends before p after)) =
    finish-Indexed s p before after (Reach-Indexed r)
