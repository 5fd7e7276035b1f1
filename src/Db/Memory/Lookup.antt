-- ===== src/Db/Memory/Lookup.antt =====
-- What the searches of the store in memory find, in whatever order they visit a map.
use open_e2b.Prelude.{
  String, ◌≡◌, refl, ◌⊎◌, inl, inr, Bool, true, false, List, [], ◌∷◌, Option, none, some, map,
  arith, string_eq, All, All-imp, Bool-cases, Option-cases, sym, ap, shuffle-perm,
}
use mathlib.Core.Option.{some-injective}
use mathlib.Core.List.{Mem, mem-cons, mem-cons_self}
use mathlib.Core.Logic.Or
use mathlib.Core.Logic.{∥∥₁_map}
use mathlib.Core.List.Perm
use mathlib.Core.List.{Perm, Permᴰ}
use mathlib.Core.List.Permᴰ
use mathlib.Core.List.Permᴰ.{nil, cons, swap, trans}
use open_e2b.Db.Memory.Filter.{Passes, IsProper, passes-Passes, Passes-passes}
use mathlib.Core.Path.{subst}
use open_e2b.Prelude.GoMap.{get}
use open_e2b.Prelude.GoMap.Keys.{Distinct}
use open_e2b.Prelude.GoMap.Range.{Order, range, Found, range-Found, All-range}
use open_e2b.Db.Types.{Sandbox, SandboxFilter, Template, ok}
use open_e2b.Db.Memory.{MemoryStore, filter, first}
use open_e2b.Db.Memory.Sandboxes.{list_sandboxes, passes}
use open_e2b.Db.Memory.Templates.{get_template, has_alias}

module _ {V : Type 0} (p : V → Bool) where
  abbrev values : List (String × V) → List V
  values m = map (λ (x : String × V). x.1) m

  -- What is found has passed the test and is the value of an entry.
  abbrev Entry : (String × V → Type 0) → V → Type 0
  Entry Q v = (p v ≡ true) × (k : String) × Q (k, v)

  first-Entry :
      (Q : String × V → Type 0) (m : List (String × V)) (v : V)
      → All Q m
      → first p (values m) ≡ some v
      → Entry Q v
  first-Entry Q [] v a h = absurd (ground arith)
  first-Entry Q ((k, w) ∷ m) v a h = elim (Bool-cases (p w)) [
    | inl b ↦ subst (Entry Q) (some-injective w v (rw b at h)) (b, k, a.0)
    | inr b ↦ first-Entry Q m v a.1 (rw b at h)
  ]

  first-none :
      (m : List (String × V))
      → first p (values m) ≡ none
      → All (λ (x : String × V). p x.1 ≡ false) m
  first-none [] h = tt
  first-none ((k, w) ∷ m) h = elim (Bool-cases (p w)) [
    | inl b ↦ absurd (ground arith)
    | inr b ↦ (b, first-none m (rw b at h))
  ]

  -- Each element of the filtered list is the value of an entry that passes.
  filter-Entry :
      (Q : String × V → Type 0) (m : List (String × V))
      → All Q m
      → All (Entry Q) (filter p (values m))
  filter-Entry Q [] a = tt
  filter-Entry Q ((k, w) ∷ m) a = elim (Bool-cases (p w)) [
    | inl b ↦ rw b ((b, k, a.0), filter-Entry Q m a.1)
    | inr b ↦ rw b (filter-Entry Q m a.1)
  ]

  -- Each entry that passes is in the filtered list.
  filter-all :
      (m : List (String × V)) (vs : List V)
      → ((v : V) → Mem v (filter p (values m)) → Mem v vs)
      → All (λ (x : String × V). p x.1 ≡ true → Mem x.1 vs) m
  filter-all [] vs f = tt
  filter-all ((k, w) ∷ m) vs f = elim (Bool-cases (p w)) [
    | inl b ↦
        let g : (v : V) → Mem v (w ∷ filter p (values m)) → Mem v vs = rw b at f in
        (λ _. g w mem-cons_self, filter-all m vs (λ v h. g v (mem-cons.1 (Or.inr h))))
    | inr b ↦ (λ h. absurd (ground arith), filter-all m vs (rw b at f))
  ]

-- In a map without a double key, `GetTemplate` finds a template if and only if there is one: by its
-- ID, or else, under some other ID, one that has the name among its aliases.
pub get_template-finds :
    (o : Order) (name : String) (s : MemoryStore)
    → Distinct s.templates
    → ((t : Template) × (get_template o name s ≡ ok (some t))
        × ((get s.templates name ≡ some t)
            ⊎ ((get s.templates name ≡ none)
                × (has_alias name t ≡ true)
                × (k : String) × (get s.templates k ≡ some t))))
      ⊎ ((get_template o name s ≡ ok none)
          × (get s.templates name ≡ none)
          × ((k : String) (t : Template) → get s.templates k ≡ some t → has_alias name t ≡ false))
unfolding get_template
get_template-finds o name s d = elim (Option-cases (get s.templates name)) [
  | inr (t, e) ↦ inl (t, ground arith, inl e)
  | inl e ↦
      let visited = range o s.templates in
      elim (Option-cases (first (has_alias name) (values (has_alias name) visited))) [
        | inr (t, f) ↦
            let (b, k, q) =
              first-Entry (has_alias name) (Found s.templates) visited t
                (range-Found o s.templates d) f in
            inl (t, ground arith, inr (e, b, k, q))
        | inl f ↦ inr (
          ground arith,
          e,
          λ k t h.
              All-range (λ (x : String × Template). has_alias name x.1 ≡ false) o s.templates k t
                (first-none (has_alias name) visited f) h,
        )
      ]
]

-- A filter does not care about the order.
filter-Permᴰ :
    {V : Type 0} (p : V → Bool) {xs ys : List V} → Permᴰ xs ys → Permᴰ (filter p xs) (filter p ys)
filter-Permᴰ p nil = nil
filter-Permᴰ p (cons {a = a} {b = b} e h) = elim (Bool-cases (p a)) [
  | inl y ↦ rw (ap p (sym e), y) (cons e (filter-Permᴰ p h))
  | inr y ↦ rw (ap p (sym e), y) (filter-Permᴰ p h)
]
filter-Permᴰ p (swap {a = a} {b = b} {a' = c} {b' = d} {l = l} e f) = elim (Bool-cases (p a)) [
  | inl y ↦ elim (Bool-cases (p b)) [
    | inl z ↦ rw (ap p (sym e), ap p (sym f), y, z) (swap e f)
    | inr z ↦ rw (ap p (sym e), ap p (sym f), y, z) (cons e (Permᴰ.refl (filter p l)))
  ]
  | inr y ↦ elim (Bool-cases (p b)) [
    | inl z ↦ rw (ap p (sym e), ap p (sym f), y, z) (cons f (Permᴰ.refl (filter p l)))
    | inr z ↦ rw (ap p (sym e), ap p (sym f), y, z) (Permᴰ.refl (filter p l))
  ]
]
filter-Permᴰ p (trans h k) = trans (filter-Permᴰ p h) (filter-Permᴰ p k)

abbrev pub stored : MemoryStore → List Sandbox
stored s = map (λ (x : String × Sandbox). x.1) s.sandboxes

-- Where neither the map of sandboxes nor the metadata of the filter has a double key, `ListSandboxes`
-- returns the sandboxes that match the filter: each one that it returns is stored, has one of the
-- states, each value of the metadata, the team and the node that the filter asks for; each one that is
-- stored and matches is returned; and none is returned twice: the answer is the stored sandboxes, each
-- once, less those that do not pass, in some order.
pub list_sandboxes-exact :
    (o om : Order) (f : Option SandboxFilter) (s : MemoryStore)
    → Distinct s.sandboxes
    → IsProper f
    → (found : List Sandbox) × (list_sandboxes o om f s ≡ ok found)
      × All (λ (sb : Sandbox). Passes f sb × (k : String) × (get s.sandboxes k ≡ some sb)) found
      × ((k : String) (sb : Sandbox) → get s.sandboxes k ≡ some sb → Passes f sb → Mem sb found)
      × Perm found (filter (passes om f) (stored s))
unfolding list_sandboxes range
list_sandboxes-exact o om f s d proper =
    let visited = range o s.sandboxes in
    let p = passes om f in
    let found = filter p (values p visited) in
    (
      found,
      refl,
      All-imp (Entry p (Found s.sandboxes)) _ (λ sb (b, k, e). (passes-Passes om sb f b, k, e))
          found (filter-Entry p (Found s.sandboxes) visited (range-Found o s.sandboxes d)),
      λ k sb h q.
          All-range (λ (x : String × Sandbox). p x.1 ≡ true → Mem x.1 found) o s.sandboxes k sb
            (filter-all p visited found (λ v m. m)) h (Passes-passes om sb f proper q),
      ∥∥₁_map (Perm.map (λ (x : String × Sandbox). x.1) (shuffle-perm o s.sandboxes))
          (filter-Permᴰ p),
    )
