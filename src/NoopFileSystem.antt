-- ===== src/NoopFileSystem.antt =====
-- include/microStore/Adapters/NoopFileSystem.h: the adapter that keeps nothing.
use micro_store.Base.{false, none}
use micro_store.FileStore.Files.{FileSystem}

-- No file opens, so no file is written.
unfoldable pub noop : {D : Type 0} → FileSystem D
noop = record {
  open_read = λ d p. none;
  open_append = λ d p. (d, false);
  open_write = λ d p. (d, false);
  write = λ d p bytes. (d, 0);
  remove = λ d p. (d, false);
  rename = λ d p q. (d, false);
  mkdir = λ d p. (d, false);
}
