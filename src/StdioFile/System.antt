-- ===== src/StdioFile/System.antt =====
-- include/microStore/Adapters/StdioFileSystem.h: `FileSystemImpl` on a host that is no ESP32, over
-- the functions on paths. The branches for the ESP32 and the messages are left out.
use micro_store.Base.{ℕ, Bool, true, false, Option, none, some, List, [], ◌==◌, if◌then◌else◌}
use micro_store.FileStore.Names.{codes}
use micro_store.PosixFile.System.{
  Mode, mode_read, mode_write, mode_append, mode_read_write, mode_read_append, Stat, names_listed,
}
use micro_store.StdioFile.{Stream, Stdio, StdioFile, close, open_stream, write}

-- The calls on paths; a Boolean is true for the result 0.
pub record StdioPaths (W : Type 0) : Type 0 where
  pub fopen : W → List ℕ → List ℕ → W × Stream
  pub remove_path : W → List ℕ → W × Bool
  pub rename_path : W → List ℕ → List ℕ → W × Bool
  pub stat : W → List ℕ → Option Stat
  pub make_dir : W → List ℕ → W × Bool
  pub remove_dir : W → List ℕ → W × Bool
  pub entries : W → List ℕ → Option (List (List ℕ))

-- The switch of `open`.
unfoldable pub mode_text : Mode → List ℕ
mode_text mode_read = codes "r"
mode_text mode_write = codes "w"
mode_text mode_append = codes "a"
mode_text mode_read_write = codes "w+"
mode_text mode_read_append = codes "a+"

abbrev init_test : List ℕ
init_test = codes "./__init_test__"

module _ {W : Type 0} (os : Stdio W) (paths : StdioPaths W) where
  opened : W → Stream → W × Option (StdioFile W)
  opened w none = (w, none)
  opened w (some file) = (w, some (open_stream os w (some file)))

  -- `open`; `none` is a file without an implementation.
  unfoldable pub open_mode : W → List ℕ → Mode → W × Option (StdioFile W)
  unfolding opened
  open_mode w path mode = let (w', file) = paths.fopen w path (mode_text mode) in opened w' file

  found : W → Stream → W × Bool
  found w none = (w, false)
  found w (some file) = (os.fclose w (some file), true)

  unfoldable pub exists : W → List ℕ → W × Bool
  unfolding found
  exists w path = let (w', file) = paths.fopen w path (codes "r") in found w' file

  unfoldable pub remove : W → List ℕ → W × Bool
  remove w path = paths.remove_path w path

  unfoldable pub rename : W → List ℕ → List ℕ → W × Bool
  rename w from_path to_path = paths.rename_path w from_path to_path

  unfoldable pub is_directory : W → List ℕ → Bool
  is_directory w path = elim (paths.stat w path) [ none ↦ false | some st ↦ st.is_dir ]

  made : W → List ℕ → Option Stat → W × Bool
  made w path none = paths.make_dir w path
  made w path (some st) = (w, st.is_dir)

  unfoldable pub mkdir : W → List ℕ → W × Bool
  unfolding made
  mkdir w path = made w path (paths.stat w path)

  -- The result is false where rmdir(2) succeeds.
  unfoldable pub rmdir : W → List ℕ → W × Bool
  rmdir w path = let (w', ok) = paths.remove_dir w path in (w', if ok then false else true)

  -- `listDirectory`, as the list or as the calls of the callback.
  unfoldable pub list_directory : W → List ℕ → List (List ℕ)
  list_directory w path = elim (paths.entries w path) [
    | none ↦ []
    | some names ↦ names_listed names
  ]

  test_written : W → Option (StdioFile W) → W × Bool
  test_written w none = (w, false)
  test_written w (some f) = let (f', n) = write os f (codes "test") in ((close os f').world, n == 4)

  unfoldable pub init : W → Bool → W × Bool
  unfolding test_written
  init w reformat_on_fail =
      let (w', file) = open_mode w init_test mode_write in
      let (w'', verified) = test_written w' file in
      if reformat_on_fail
      then ((if verified then (remove w'' init_test).0 else w''), true)
      else (w, true)
