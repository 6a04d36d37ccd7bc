-- ===== src/PosixFile/System.antt =====
-- include/microStore/Adapters/PosixFileSystem.h: `FileSystemImpl` on a host that is no ESP32, over
-- the system calls on paths. The branches for the ESP32 and the messages are left out.
use micro_store.Base.{
  ℕ, Bool, true, false, ◌||◌, Option, none, some, List, [], ◌∷◌, ◌==◌, bytes_eq, if◌then◌else◌,
}
use micro_store.FileStore.Names.{codes}
use micro_store.PosixFile.{Descriptor, Posix, PosixFile, close, open_fd, write}

-- `File::Mode`
pub data Mode : Type 0 where
  mode_read : Mode
  mode_write : Mode
  mode_append : Mode
  mode_read_write : Mode
  mode_read_append : Mode

-- The flags of open(2).
pub record Flags : Type 0 where
  pub reads : Bool
  pub writes : Bool
  pub creates : Bool
  pub truncates : Bool
  pub appends : Bool

pub record Stat : Type 0 where
  pub is_dir : Bool
  pub st_size : ℕ

-- The calls on paths; a Boolean is true for the result 0.
pub record PosixPaths (W : Type 0) : Type 0 where
  pub open_file : W → List ℕ → Flags → W × Descriptor
  pub unlink : W → List ℕ → W × Bool
  pub rename : W → List ℕ → List ℕ → W × Bool
  pub stat : W → List ℕ → Option Stat
  pub mkdir : W → List ℕ → W × Bool
  pub rmdir : W → List ℕ → W × Bool
  pub entries : W → List ℕ → Option (List (List ℕ))

abbrev pub read_only : Flags
read_only = record {
  reads = true;
  writes = false;
  creates = false;
  truncates = false;
  appends = false;
}

-- The switch of `open`.
unfoldable pub flags_of : Mode → Flags
flags_of mode_read = read_only
flags_of mode_write = record read_only {
  reads = false;
  writes = true;
  creates = true;
  truncates = true;
}
flags_of mode_append = record read_only {
  reads = false;
  writes = true;
  creates = true;
  appends = true;
}
flags_of mode_read_write = record read_only { writes = true; creates = true; truncates = true }
flags_of mode_read_append = record read_only { writes = true; creates = true; appends = true }

abbrev init_test : List ℕ
init_test = codes "./__init_test__"

-- Without ".", "..".
unfoldable pub names_listed : List (List ℕ) → List (List ℕ)
names_listed [] = []
names_listed (name ∷ names) =
    let rest = names_listed names in
    if bytes_eq name (46 ∷ []) || bytes_eq name (46 ∷ 46 ∷ []) then rest else name ∷ rest

module _ {W : Type 0} (os : Posix W) (paths : PosixPaths W) where
  opened : W → Descriptor → W × Option (PosixFile W)
  opened w none = (w, none)
  opened w (some fd) = (w, some (open_fd os w (some fd)))

  -- `open`; `none` is a file without an implementation.
  unfoldable pub open_mode : W → List ℕ → Mode → W × Option (PosixFile W)
  unfolding opened
  open_mode w path mode = let (w', fd) = paths.open_file w path (flags_of mode) in opened w' fd

  found : W → Descriptor → W × Bool
  found w none = (w, false)
  found w (some fd) = (os.close w (some fd), true)

  unfoldable pub exists : W → List ℕ → W × Bool
  unfolding found
  exists w path = let (w', fd) = paths.open_file w path read_only in found w' fd

  unfoldable pub remove : W → List ℕ → W × Bool
  remove w path = paths.unlink w path

  unfoldable pub rename : W → List ℕ → List ℕ → W × Bool
  rename w from_path to_path = paths.rename w from_path to_path

  made : W → List ℕ → Option Stat → W × Bool
  made w path none = paths.mkdir w path
  made w path (some st) = (w, st.is_dir)

  unfoldable pub mkdir : W → List ℕ → W × Bool
  unfolding made
  mkdir w path = made w path (paths.stat w path)

  -- The result is false where rmdir(2) succeeds.
  unfoldable pub rmdir : W → List ℕ → W × Bool
  rmdir w path = let (w', ok) = paths.rmdir w path in (w', if ok then false else true)

  unfoldable pub size_of : W → List ℕ → ℕ
  size_of w path = elim (paths.stat w path) [ none ↦ 0 | some st ↦ st.st_size ]

  unfoldable pub is_directory : W → List ℕ → Bool
  is_directory w path = elim (paths.stat w path) [ none ↦ false | some st ↦ st.is_dir ]

  -- `listDirectory`, as the list or as the calls of the callback.
  unfoldable pub list_directory : W → List ℕ → List (List ℕ)
  list_directory w path = elim (paths.entries w path) [
    | none ↦ []
    | some names ↦ names_listed names
  ]

  test_written : W → Option (PosixFile W) → W × Bool
  test_written w none = (w, false)
  test_written w (some f) = let (f', n) = write os f (codes "test") in ((close os f').world, n == 4)

  unfoldable pub init : W → Bool → W × Bool
  unfolding test_written
  init w reformat_on_fail =
      let (w', file) = open_mode w init_test mode_write in
      let (w'', verified) = test_written w' file in
      if reformat_on_fail
      then ((if verified then (remove w'' init_test).0 else w''), true)
      else (w, true)
