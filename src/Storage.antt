-- ===== src/Storage.antt =====
-- internal/storage/store.go: `LocalStore` over a table of files by their paths, with `filepath.Clean`
-- and `filepath.Join` of a Unix system. The errors of the operating system are arguments.
pub mod Paths
pub mod Keeps
mod Tests
use docpulse.Base.{
  ℕ, Bool, true, false, ◌&&◌, ◌||◌, not, Option, none, some, List, [], ◌∷◌, ◌++◌, String, ◌==◌,
  if◌then◌else◌, take,
}
use docpulse.Base.Result.{Result, ok, err, wrap}
use docpulse.Text.Utf8.{Bytes, str}
use docpulse.Database.JobStore.{Fault}

-- The content of each regular file, by its clean path.
abbrev pub Files : Type 0
Files = List (Bytes × Bytes)

abbrev pub slash : ℕ
slash = b'/'

pub same_bytes : Bytes → Bytes → Bool
same_bytes [] [] = true
same_bytes (a ∷ s) (b ∷ t) = (a == b) && same_bytes s t
same_bytes _ _ = false

pub find_file : Bytes → Files → Option Bytes
find_file path [] = none
find_file path ((p, content) ∷ files) =
    if same_bytes p path then some content else find_file path files

pub put_file : Bytes → Bytes → Files → Files
put_file path content [] = (path, content) ∷ []
put_file path content ((p, old) ∷ files) =
    if same_bytes p path then (p, content) ∷ files else (p, old) ∷ put_file path content files

pub remove_file : Bytes → Files → Files
remove_file path [] = []
remove_file path ((p, old) ∷ files) =
    if same_bytes p path then files else (p, old) ∷ remove_file path files

-- The parts of a path between its slashes.
abbrev to_first : ℕ → List Bytes → List Bytes
to_first b [] = (b ∷ []) ∷ []
to_first b (c ∷ cs) = (b ∷ c) ∷ cs

pub components : Bytes → List Bytes
components [] = [] ∷ []
components (b ∷ s) = let rest = components s in if b == slash then [] ∷ rest else to_first b rest

-- What `Clean` makes of the parts so far, the last one first: an empty part and "." are dropped,
-- and ".." takes the part before it away.
abbrev pub is_here : Bytes → Bool
is_here c = same_bytes c [] || same_bytes c (b'.' ∷ [])

abbrev pub is_parent : Bytes → Bool
is_parent c = same_bytes c (b'.' ∷ b'.' ∷ [])

pub go_up : Bool → List Bytes → List Bytes
go_up rooted [] = if rooted then [] else (b'.' ∷ b'.' ∷ []) ∷ []
go_up rooted (c ∷ kept) = if is_parent c then (b'.' ∷ b'.' ∷ []) ∷ c ∷ kept else kept

pub add_component : Bool → List Bytes → Bytes → List Bytes
add_component rooted kept c =
    if is_here c then kept else if is_parent c then go_up rooted kept else c ∷ kept

pub resolve : Bool → List Bytes → List Bytes → List Bytes
resolve rooted kept [] = kept
resolve rooted kept (c ∷ cs) = resolve rooted (add_component rooted kept c) cs

pub join_back : List Bytes → Bytes
join_back [] = []
join_back (c ∷ []) = c
join_back (c ∷ d ∷ kept) = join_back (d ∷ kept) ++ slash ∷ c

pub print_path : Bool → List Bytes → Bytes
print_path true kept = slash ∷ join_back kept
print_path false [] = b'.' ∷ []
print_path false (c ∷ kept) = join_back (c ∷ kept)

abbrev pub is_rooted : Bytes → Bool
is_rooted [] = false
is_rooted (b ∷ s) = b == slash

-- `filepath.Clean`
pub clean : Bytes → Bytes
clean path = print_path (is_rooted path) (resolve (is_rooted path) [] (components path))

-- `filepath.Join` of two elements
pub join : Bytes → Bytes → Bytes
join [] [] = []
join [] (b ∷ key) = clean (b ∷ key)
join (b ∷ base) key = clean ((b ∷ base) ++ slash ∷ key)

-- The ways in which `os.WriteFile` ends: it cannot open the file, or it fails after some bytes.
pub data Write : Type 0 where
  written : Write
  not_opened : String → Write
  cut_short : ℕ → String → Write

write_file : Write → Bytes → Bytes → Files → Result Bytes × Files
write_file written path content files = (ok (str "file://" ++ path), put_file path content files)
write_file (not_opened e) path content files = (wrap "writing file" (err e), files)
write_file (cut_short n e) path content files =
    (wrap "writing file" (err e), put_file path (take n content) files)

-- `NewLocalStore` keeps the base directory, unless it cannot be made.
pub new_local_store : Fault → Bytes → Result Bytes
new_local_store (some e) base = wrap "creating storage directory" (err e)
new_local_store none base = ok base

pub upload : Fault → Write → Bytes → Bytes → Bytes → Files → Result Bytes × Files
upload (some e) w base key content files = (wrap "creating parent directory" (err e), files)
upload none w base key content files = write_file w (join base key) content files

or_missing : Option Bytes → Result Bytes
or_missing none = err "no such file or directory"
or_missing (some content) = ok content

pub download : Fault → Bytes → Files → Result Bytes
download (some e) key files = wrap "reading file" (err e)
download none key files = wrap "reading file" (or_missing (find_file key files))

removed : Option Bytes → Bytes → Files → Result (Unit {0}) × Files
removed none key files = (wrap "deleting file" (err "no such file or directory"), files)
removed (some content) key files = (ok tt, remove_file key files)

pub delete : Fault → Bytes → Files → Result (Unit {0}) × Files
delete (some e) key files = (wrap "deleting file" (err e), files)
delete none key files = removed (find_file key files) key files

-- Opens the module, for tests.
unfoldable pub local_store : Unit {0}
unfolding same_bytes find_file put_file remove_file components go_up add_component resolve join_back
    print_path clean join write_file new_local_store upload or_missing download removed delete
local_store = tt
