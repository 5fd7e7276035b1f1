-- ===== src/Scheduler/Sweep.antt =====
-- An undisturbed tick of the expiration checker leaves nothing expired, if the nodes oblige.
use open_e2b.Prelude.{
  String, ◌≡◌, refl, sym, ◌∙◌, Option, none, some, inl, inr, true, false, arith, ◌==◌, ==_iff,
  string_eq, Bool-cases, Option-cases,
}
use mathlib.Core.Path.{subst}
use mathlib.Core.Option.{some-injective}
use open_e2b.Prelude.GoMap.{get, put, get-put, get-remove}
use open_e2b.Scheduler.Types.{Node, Sandbox, Scheduler, is_running, paused, stopped}
use open_e2b.Scheduler.Ops.{stop, pause, drop_sandbox, update_sandbox, with_state, release}
use open_e2b.Scheduler.Expiry.{nothing, expire}
use open_e2b.Scheduler.Outcomes.{Obliging, stop-ok, pause-ok}

-- Each sandbox stands on a registered node.
abbrev pub IsHoused : {W : Type 0} → Scheduler W → Type 0
IsHoused s =
    (k : String) (sb : Sandbox)
    → get s.sandboxes k ≡ some sb
    → (n : Node) × (get s.nodes sb.status.node_id ≡ some n)

-- What a call may do to an entry: nothing, delete it, or pause it.
pub data Quieter (p q : Option Sandbox) : Type 0 where
  same : q ≡ p → Quieter p q
  gone : q ≡ none → Quieter p q
  quiet : (sb : Sandbox) → p ≡ some sb → q ≡ some (with_state paused sb) → Quieter p q

pub record Swept {W : Type 0} (id : String) (s t : Scheduler W) : Type 0 where
  pub ops : t.node_ops ≡ s.node_ops
  pub nodes :
      (k : String) (n : Node) → get s.nodes k ≡ some n → (n' : Node) × (get t.nodes k ≡ some n')
  pub quieter : (k : String) → Quieter (get s.sandboxes k) (get t.sandboxes k)
  pub idle : (sb : Sandbox) → get t.sandboxes id ≡ some sb → is_running sb.status.state ≡ false

module _ {W : Type 0} (s : Scheduler W) (o : Obliging s) (housed : IsHoused s) (id : String) where
  unchanged-Swept :
      ((sb : Sandbox) → get s.sandboxes id ≡ some sb → is_running sb.status.state ≡ false)
      → Swept id s s
  unchanged-Swept idle = record {
    ops = refl;
    nodes = λ k n h. (n, h);
    quieter = λ k. same refl;
    idle = idle;
  }

  stop-Swept : (sb : Sandbox) → get s.sandboxes id ≡ some sb → Swept id s (stop id s).1
  unfolding drop_sandbox
  stop-Swept sb e =
      let (n, h) = housed id sb e in
      let (_, (nodes, sandboxes), ops) = stop-ok s o id sb e n h in
      let gone_map = put s.sandboxes id (with_state stopped sb) in
      record {
        ops = ops;
        nodes = λ k x q. elim (Bool-cases (sb.status.node_id == k)) [
          | inl b ↦ (
            release sb.spec n,
            rw (nodes, get-put s.nodes sb.status.node_id k (release sb.spec n), b),
          )
          | inr b ↦ (x, rw (nodes, get-put s.nodes sb.status.node_id k (release sb.spec n), b) q)
        ];
        quieter = λ k. elim (Bool-cases (id == k)) [
          | inl b ↦ gone (rw (sandboxes, get-remove gone_map id k, b))
          | inr b ↦ same (
              rw (
                sandboxes,
                get-remove gone_map id k,
                b,
                get-put s.sandboxes id k (with_state stopped sb),
                b,
              ))
        ];
        idle = λ x q. ground (arith, sandboxes, get-remove gone_map id id, ==_iff id id);
      }

  pause-Swept :
      (sb : Sandbox)
      → get s.sandboxes id ≡ some sb
      → is_running sb.status.state ≡ true
      → Swept id s (pause id s).1
  unfolding update_sandbox
  pause-Swept sb e r =
      let (_, (nodes, sandboxes), ops) = pause-ok s o id sb e r in
      record {
        ops = ops;
        nodes = λ k x q. (x, rw nodes q);
        quieter = λ k. elim (Bool-cases (id == k)) [
          | inl b ↦
              quiet sb (rw (← (==_iff id k).0 b) e)
                (rw (sandboxes, get-put s.sandboxes id k (with_state paused sb), b))
          | inr b ↦ same (rw (sandboxes, get-put s.sandboxes id k (with_state paused sb), b))
        ];
        idle = λ x q.
            ground
              (arith, sandboxes, get-put s.sandboxes id id (with_state paused sb), ==_iff id id);
      }

  -- A sandbox that is not running cannot be paused: nothing changes.
  pause_idle :
      (sb : Sandbox)
      → get s.sandboxes id ≡ some sb
      → is_running sb.status.state ≡ false
      → (pause id s).1 ≡ s
  unfolding pause
  pause_idle sb e r = ground arith

  pub expire-Swept : Swept id s (expire nothing id s)
  unfolding expire
  expire-Swept = elim (Option-cases (get s.sandboxes id)) [
    | inl e ↦ rw (e, expire) (unchanged-Swept (λ x q. ground arith))
    | inr (sb, e) ↦ elim (Bool-cases sb.spec.auto_pause) [
      | inl p ↦ elim (Bool-cases (is_running sb.status.state)) [
        | inl r ↦ rw (e, expire) (rw p (pause-Swept sb e r))
        | inr r ↦
            rw (e, expire) (rw p (rw (pause_idle sb e r) (unchanged-Swept (λ x q. ground arith))))
      ]
      | inr p ↦ rw (e, expire) (rw p (stop-Swept sb e))
    ]
  ]

module _ {W : Type 0} {s t : Scheduler W} {id : String} (w : Swept id s t) where
  pub Swept-Obliging : Obliging s → Obliging t
  Swept-Obliging o = record {
    stops = λ ops n k x e. o.stops ops n k x (sym w.ops ∙ e);
    pauses = λ ops n k x e. o.pauses ops n k x (sym w.ops ∙ e);
    resumes = λ ops n k x e. o.resumes ops n k x (sym w.ops ∙ e);
  }

  pub Swept-IsHoused : IsHoused s → IsHoused t
  Swept-IsHoused h k sb e = elim (w.quieter k) [
    | same q ↦ (let (n, f) = h k sb (sym q ∙ e) in w.nodes _ n f)
    | gone q ↦ absurd (ground arith)
    | quiet x p q ↦
        (let (n, f) = h k x p in
          let (n', f') = w.nodes _ n f in
          (
            n',
            subst (λ (y : Sandbox). get t.nodes y.status.node_id ≡ some n')
                (some-injective _ _ (sym q ∙ e)) f',
          ))
  ]
