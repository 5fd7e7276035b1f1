-- ===== src/Db/Memory/Keys.antt =====
-- internal/db/memory.go: the operations on API keys.
use open_e2b.Prelude.{String, ◌==◌, string_eq, List, Option, none, some, map}
use open_e2b.Prelude.GoMap.{get, put, remove}
use open_e2b.Prelude.GoMap.Range.{Order, range}
use open_e2b.Prelude.Time.{Time}
use open_e2b.Db.Types.{Result, ok, err, ApiKey}
use open_e2b.Db.Store.{Write}
use open_e2b.Db.Memory.{MemoryStore, filter, first}

unfoldable pub create_api_key : ApiKey → Write MemoryStore
create_api_key k s = (ok tt, record s { api_keys = put s.api_keys k.id k })

unfoldable pub get_api_key_by_hash : Order → String → MemoryStore → Result (Option ApiKey)
get_api_key_by_hash o hash s = ok (
    first (λ (k : ApiKey). k.hashed_key == hash)
      (map (λ (p : String × ApiKey). p.1) (range o s.api_keys)))

unfoldable pub list_api_keys : Order → String → MemoryStore → Result (List ApiKey)
list_api_keys o team s = ok (
    filter (λ (k : ApiKey). k.team_id == team)
      (map (λ (p : String × ApiKey). p.1) (range o s.api_keys)))

unfoldable pub delete_api_key : String → Write MemoryStore
delete_api_key id s = elim (get s.api_keys id) [
  | none ↦ (err "API key not found", s)
  | some k ↦ (ok tt, record s { api_keys = remove s.api_keys id })
]

unfoldable pub update_api_key_last_used : Time → String → Write MemoryStore
update_api_key_last_used now id s = elim (get s.api_keys id) [
  | none ↦ (err "API key not found", s)
  | some k ↦ (ok tt, record s { api_keys = put s.api_keys id (record k { last_used = some now }) })
]
