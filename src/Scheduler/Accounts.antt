-- ===== src/Scheduler/Accounts.antt =====
-- The scheduler's books: each node's figures are the sums over the sandboxes placed on it.
use open_e2b.Prelude.{String, ◌≡◌, ◌≢◌, refl, none, some, arith, ==_iff, string_eq, ◌∙◌, sym}
use open_e2b.Prelude.GoMap.{GoMap, get, put, remove, get-put, get-put_cases, get-remove}
use open_e2b.Prelude.GoMap.Keys.{Distinct, put-Distinct, remove-Distinct}
use open_e2b.Scheduler.Types.{Node, Sandbox, Scheduler, running, stopped}
use open_e2b.Scheduler.Ops.{place, drop_sandbox, update_sandbox, allocate, release, with_state}
use open_e2b.Scheduler.Books.{
  IsBooked, put_same-IsBooked, allocate-IsBooked, put_other-IsBooked, release-IsBooked,
  drop_other-IsBooked,
}
use open_e2b.Scheduler.Cases.{in_world}

-- The maps are keyed by the IDs, and each registered node's figures are its load, modulo 2 ^ 64.
pub record Accounts {W : Type 0} (s : Scheduler W) : Type 0 where
  pub nodes_distinct : Distinct s.nodes
  pub sandboxes_distinct : Distinct s.sandboxes
  pub node_ids : (k : String) (n : Node) → get s.nodes k ≡ some n → n.spec.id ≡ k
  pub sandbox_ids : (k : String) (sb : Sandbox) → get s.sandboxes k ≡ some sb → sb.spec.id ≡ k
  pub booked : (k : String) (n : Node) → get s.nodes k ≡ some n → IsBooked s.sandboxes n

pub in_world-Accounts :
    {W : Type 0} (s : Scheduler W) → Accounts s → (w : W) → Accounts (in_world s w)
in_world-Accounts s a w = record {
  nodes_distinct = a.nodes_distinct;
  sandboxes_distinct = a.sandboxes_distinct;
  node_ids = a.node_ids;
  sandbox_ids = a.sandbox_ids;
  booked = a.booked;
}

-- What holds of each node when the node under `key` is replaced by one with the same ID.
pub replaced :
    (nodes : GoMap String Node)
    → ((k : String) (x : Node) → get nodes k ≡ some x → x.spec.id ≡ k)
    → (Q : Node → Type 0) (key : String) (n n' : Node) → get nodes key ≡ some n
    → n'.spec.id ≡ n.spec.id
    → Q n'
    → ((k : String) (x : Node) → get nodes k ≡ some x → n.spec.id ≢ x.spec.id → Q x)
    → (k : String) (x : Node) → get (put nodes key n') k ≡ some x
    → (x.spec.id ≡ k) × Q x
replaced nodes ids Q key n n' h e own others k x q =
    get-put_cases (λ (y : Node). (y.spec.id ≡ k) × Q y) nodes key k n' x q
      (λ same. (e ∙ ids key n h ∙ same, own))
      λ differ q'. (ids k x q', others k x q' (λ same. ground (arith, ids key n h, ids k x q')))

module _ {W : Type 0} (s : Scheduler W) (a : Accounts s) where
  -- A write to a sandbox that keeps its spec and its node keeps the books.
  pub update_sandbox-Accounts :
      (id : String) (old sb : Sandbox)
      → get s.sandboxes id ≡ some old
      → sb.spec ≡ old.spec
      → sb.status.node_id ≡ old.status.node_id
      → Accounts (update_sandbox id sb s)
  unfolding update_sandbox
  update_sandbox-Accounts id old sb h e p = record {
    nodes_distinct = a.nodes_distinct;
    sandboxes_distinct = put-Distinct s.sandboxes id sb a.sandboxes_distinct;
    node_ids = a.node_ids;
    sandbox_ids = λ k x q.
        ground (
          arith,
          get-put s.sandboxes id k sb,
          ==_iff id k,
          a.sandbox_ids k x,
          a.sandbox_ids id old,
        );
    booked = λ k n q. put_same-IsBooked s.sandboxes n (a.booked k n q) id old sb h e p;
  }

  pub place-Accounts :
      (key : String) (n : Node) (sb : Sandbox)
      → get s.nodes key ≡ some n
      → get s.sandboxes sb.spec.id ≡ none
      → sb.status.node_id ≡ n.spec.id
      → Accounts (place key n sb s)
  unfolding place
  place-Accounts key n sb h new e = record {
    nodes_distinct = put-Distinct s.nodes key (allocate sb.spec n) a.nodes_distinct;
    sandboxes_distinct = put-Distinct s.sandboxes sb.spec.id after a.sandboxes_distinct;
    node_ids = λ k x q. (books k x q).0;
    sandbox_ids = λ k x q.
        ground
          (arith, get-put s.sandboxes sb.spec.id k after, ==_iff sb.spec.id k, a.sandbox_ids k x);
    booked = λ k x q. (books k x q).1;
  }
    where
      after : Sandbox
      after = with_state running sb

      books :
          (k : String) (x : Node)
          → get (put s.nodes key (allocate sb.spec n)) k ≡ some x
          → (x.spec.id ≡ k) × IsBooked (put s.sandboxes sb.spec.id after) x
      books =
          replaced s.nodes a.node_ids (IsBooked (put s.sandboxes sb.spec.id after)) key n
            (allocate sb.spec n) h (unfold allocate in refl)
            (allocate-IsBooked s.sandboxes n (a.booked key n h) sb.spec.id after new e)
            λ k x q differ.
              put_other-IsBooked s.sandboxes x (a.booked k x q) sb.spec.id after new
                (λ same. differ (sym e ∙ same))

  pub drop_sandbox-Accounts :
      (id : String) (n : Node) (sb : Sandbox)
      → get s.sandboxes id ≡ some sb
      → get s.nodes sb.status.node_id ≡ some n
      → Accounts (drop_sandbox id n sb s)
  unfolding drop_sandbox
  drop_sandbox-Accounts id n sb h e = record {
    nodes_distinct = put-Distinct s.nodes sb.status.node_id (release sb.spec n) a.nodes_distinct;
    sandboxes_distinct =
        remove-Distinct _ id (put-Distinct s.sandboxes id gone a.sandboxes_distinct);
    node_ids = λ k x q. (books k x q).0;
    sandbox_ids = λ k x q. ground (
      arith,
      get-remove (put s.sandboxes id gone) id k,
      get-put s.sandboxes id k gone,
      a.sandbox_ids k x,
    );
    booked = λ k x q. (books k x q).1;
  }
    where
      gone : Sandbox
      gone = with_state stopped sb

      books :
          (k : String) (x : Node)
          → get (put s.nodes sb.status.node_id (release sb.spec n)) k ≡ some x
          → (x.spec.id ≡ k) × IsBooked (remove (put s.sandboxes id gone) id) x
      books =
          replaced s.nodes a.node_ids (IsBooked (remove (put s.sandboxes id gone) id))
            sb.status.node_id n (release sb.spec n) e (unfold release in refl)
            (release-IsBooked s.sandboxes n (a.booked _ n e) id a.sandboxes_distinct sb gone h refl
              refl (sym (a.node_ids _ n e)))
            λ k x q differ.
              drop_other-IsBooked s.sandboxes x (a.booked k x q) id a.sandboxes_distinct sb gone h
                refl refl (λ same. differ (a.node_ids _ n e ∙ same))
