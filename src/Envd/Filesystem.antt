-- ===== src/Envd/Filesystem.antt =====
-- pkg/envd/filesystem/service.go: the operations on files and the table of watchers. The file system
-- is that of the packages os and io/fs, over a state `F`; a mode is what FileInfo makes of it.
pub mod Depth
use open_e2b.Prelude.{
  ℕ, zero, suc, ◌+◌, ◌-◌, ◌%◌, String, Bool, true, false, ◌&&◌, ◌||◌, List, [], ◌∷◌, ◌++◌, Option,
  none, some, ltb, leb, nat_beq, string_eq, if◌then◌else◌,
}
use open_e2b.Prelude.GoMap.{GoMap, get, put, remove}
use open_e2b.Prelude.Time.{Time}
use open_e2b.Prelude.Action.{Outcome, done, failed, Action, ◌>>=◌}

pub data FileType : Type 0 where
  unspecified file directory : FileType

pub data EventType : Type 0 where
  unspecified create write removed rename chmod : EventType

pub record EntryInfo : Type 0 where
  pub name : String
  pub kind : FileType
  pub path : String
  pub size : ℕ
  pub mode : ℕ
  pub permissions : String
  pub owner : String
  pub group : String
  pub modified_time : Time
  pub symlink_target : Option String

pub record FilesystemEvent : Type 0 where
  pub name : String
  pub kind : EventType

pub record Watcher : Type 0 where
  pub id : String
  pub path : String
  pub recursive : Bool
  pub events : List FilesystemEvent

-- fs.FileInfo; `ids` are the numbers of the owner and the group, where the system tells them.
pub record FileInfo : Type 0 where
  pub name : String
  pub size : ℕ
  pub mode : ℕ
  pub permissions : String
  pub modified_time : Time
  pub is_dir : Bool
  pub is_symlink : Bool
  pub ids : Option (ℕ × ℕ)

-- os.DirEntry, with what its `Info` returns.
pub record DirEntry : Type 0 where
  pub name : String
  pub is_dir : Bool
  pub info : Outcome FileInfo

pub record FileSystem (F : Type 0) : Type 0 where
  pub lstat : String → Action F FileInfo
  pub stat : String → Action F FileInfo
  pub mkdir_all : String → Action F (Unit {0})
  pub rename : String → String → Action F (Unit {0})
  pub remove_all : String → Action F (Unit {0})
  pub read_dir : F → String → Outcome (List DirEntry)
  pub readlink : F → String → Outcome String
  pub join : String → String → String

-- uidToName and gidToName
abbrev uid_to_name : ℕ → String
uid_to_name id = if nat_beq id 0 then "root" else "user"

abbrev name_of : (ℕ × ℕ → ℕ) → Option (ℕ × ℕ) → String
name_of f none = ""
name_of f (some ids) = uid_to_name (f ids)

abbrev link_of : Bool → Outcome String → Option String
link_of false target = none
link_of true (failed e) = none
link_of true (done target) = some target

module _ {F : Type 0} (fs : FileSystem F) where
  unfoldable pub to_entry_info : F → String → FileInfo → EntryInfo
  to_entry_info s path i = record {
    name = i.name;
    kind = if i.is_dir then directory else file;
    path = path;
    size = i.size;
    mode = i.mode;
    permissions = i.permissions;
    owner = name_of (λ ids. ids.0) i.ids;
    group = name_of (λ ids. ids.1) i.ids;
    modified_time = i.modified_time;
    symlink_target = link_of i.is_symlink (fs.readlink s path);
  }

  abbrev entry_of : String → Outcome FileInfo × F → Outcome EntryInfo × F
  entry_of path (failed e, s) = (failed e, s)
  entry_of path (done i, s) = (done (to_entry_info s path i), s)

  unfoldable pub stat : String → Action F EntryInfo
  stat path s = entry_of path (fs.lstat path s)

  unfoldable pub make_dir : String → Action F EntryInfo
  make_dir path = fs.mkdir_all path >>= λ u s. entry_of path (fs.stat path s)

  unfoldable pub move : String → String → Action F EntryInfo
  move source destination =
      fs.rename source destination >>= λ u s. entry_of destination (fs.stat destination s)

  unfoldable pub remove_path : String → Action F (Unit {0})
  remove_path path = fs.remove_all path

-- What a walk found, in order, and the error that stopped it, if any.
pub record Walk : Type 0 where
  pub entries : List EntryInfo
  pub error : Option String

abbrev pub cons_entry : EntryInfo → Option Walk → Option Walk
cons_entry e none = none
cons_entry e (some w) = some (record w { entries = e ∷ w.entries })

abbrev pub append_walk : List EntryInfo → Walk → Walk
append_walk es w = record w { entries = es ++ w.entries }

abbrev pub continue_walk : List EntryInfo → Option Walk → Option Walk
continue_walk es none = none
continue_walk es (some w) = some (append_walk es w)

abbrev pub after_walk : Walk → Option String → Option Walk → Option Walk
after_walk w none next = continue_walk w.entries next
after_walk w (some e) next = some w

-- A walk and then, where it met no error, another.
abbrev pub then_walk : Option Walk → Option Walk → Option Walk
then_walk none next = none
then_walk (some w) next = after_walk w w.error next

-- `currentDepth < maxDepth-1` or no limit, on uint32.
abbrev pub goes_down : ℕ → ℕ → Bool
goes_down max current = nat_beq max 0 || ltb current ((max + 4294967295) % 4294967296)

abbrev pub next_depth : ℕ → ℕ
next_depth current = (current + 1) % 4294967296

module _ {F : Type 0} (fs : FileSystem F) (s : F) where
  -- One entry: what cannot be read is left out, and a directory is walked where the depth allows it.
  abbrev pub visit :
      (String → Option Walk) → String → Bool → Outcome FileInfo → Option Walk → Option Walk
  visit below path down (failed err) rest = rest
  visit below path true (done i) rest =
      cons_entry (to_entry_info fs s path i) (then_walk (below path) rest)
  visit below path false (done i) rest = cons_entry (to_entry_info fs s path i) rest

  -- The loop over the entries of a directory, with what walks the directories below it.
  unfoldable pub walk_entries : (String → Option Walk) → String → Bool → List DirEntry → Option Walk
  walk_entries below root down [] = some (record { entries = []; error = none })
  walk_entries below root down (e ∷ es) =
      let rest = walk_entries below root down es in
      visit below (fs.join root e.name) (e.is_dir && down) e.info rest

  abbrev pub walk_found :
      (String → Option Walk) → String → Bool → Outcome (List DirEntry) → Option Walk
  walk_found below root down (failed e) = some (record { entries = []; error = some e })
  walk_found below root down (done es) = walk_entries below root down es

  -- The fuel is one for each level of directories; none where it does not suffice.
  unfoldable pub walk_dir : ℕ → ℕ → ℕ → String → Option Walk
  walk_dir zero max current root = none
  walk_dir (suc fuel) max current root =
      let found =
        walk_found (walk_dir fuel max (next_depth current)) root (goes_down max current)
          (fs.read_dir s root) in
      if ltb 0 max && leb max current then some (record { entries = []; error = none }) else found

  unfoldable pub list_dir : ℕ → String → ℕ → Option Walk
  list_dir fuel path depth = walk_dir fuel depth 0 path

pub record Service : Type 0 where
  pub watchers : GoMap String Watcher

abbrev pub not_exist : String
not_exist = "file does not exist"

unfoldable pub new_service : Service
new_service = record { watchers = [] }

-- `id` is the new UUID. Nothing watches the path, so no event is ever added.
unfoldable pub create_watcher : String → String → Bool → Service → String × Service
create_watcher id path recursive v = (
  id,
  record v {
    watchers =
        put v.watchers id (record { id = id; path = path; recursive = recursive; events = [] });
  },
)

unfoldable pub get_watcher_events : String → Action Service (List FilesystemEvent)
get_watcher_events id v = elim (get v.watchers id) [
  | none ↦ (failed not_exist, v)
  | some w ↦ (done w.events, record v { watchers = put v.watchers id (record w { events = [] }) })
]

unfoldable pub remove_watcher : String → Action Service (Unit {0})
remove_watcher id v = elim (get v.watchers id) [
  | none ↦ (failed not_exist, v)
  | some w ↦ (done tt, record v { watchers = remove v.watchers id })
]
