-- ===== src/Db/Memory.antt =====
-- internal/db/memory.go: `MemoryStore`. Each method holds the lock from start to end. A map holds
-- pointers there and the values behind them here: no code writes through a pointer it got back.
pub mod Sandboxes
pub mod Templates
pub mod Builds
pub mod Nodes
pub mod Keys
pub mod Implements
pub mod Filter
pub mod Lookup
use open_e2b.Prelude.{String, Bool, true, false, List, [], ◌∷◌, Option, none, some, if◌then◌else◌}
use open_e2b.Prelude.GoMap.{GoMap}
use open_e2b.Prelude.Time.{Time}
use open_e2b.Db.Types.{Result, ok, Sandbox, Template, Build, Node, Team, ApiKey}
use open_e2b.Db.Store.{Write}

pub record MemoryStore : Type 0 where
  pub sandboxes : GoMap String Sandbox
  pub templates : GoMap String Template
  pub builds : GoMap String Build
  pub nodes : GoMap String Node
  pub teams : GoMap String Team
  pub api_keys : GoMap String ApiKey

abbrev pub default_team : Time → Time → Team
default_team created updated = record {
  team_id = "default";
  name = "Default Team";
  api_key = "e2b_default_key";
  is_default = true;
  created_at = created;
  updated_at = updated;
}

unfoldable pub new_memory_store : Time → Time → MemoryStore
new_memory_store created updated = record {
  sandboxes = [];
  templates = [];
  builds = [];
  nodes = [];
  teams = ("default", default_team created updated) ∷ [];
  api_keys = [];
}

unfoldable pub ping : MemoryStore → Result (Unit {0})
ping s = ok tt

unfoldable pub close : Write MemoryStore
close s = (ok tt, s)

-- The elements of a slice that pass a test, in order.
abbrev pub filter {ℓ} : {A : Type ℓ} → (A → Bool) → List A → List A
filter p [] = []
filter p (x ∷ xs) = let rest = filter p xs in if p x then x ∷ rest else rest

-- The first element that passes a test.
abbrev pub first {ℓ} : {A : Type ℓ} → (A → Bool) → List A → Option A
first p [] = none
first p (x ∷ xs) = let rest = first p xs in if p x then some x else rest

abbrev pub any {ℓ} : {A : Type ℓ} → (A → Bool) → List A → Bool
any p [] = false
any p (x ∷ xs) = let rest = any p xs in if p x then true else rest

abbrev pub every {ℓ} : {A : Type ℓ} → (A → Bool) → List A → Bool
every p [] = true
every p (x ∷ xs) = let rest = every p xs in if p x then rest else false
