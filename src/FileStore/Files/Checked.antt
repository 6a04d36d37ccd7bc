-- ===== src/FileStore/Files/Checked.antt =====
-- include/microStore/File.h: `File` keeps a checksum of the bytes that it reads and writes.
use micro_store.Base.{
  ℕ, ◌%◌, ◌<◌, ◌^◌, ◌≡◌, sym, ◌∙◌, Option, none, some, List, [], ◌∷◌, ◌++◌, ltb, if◌then◌else◌,
}
use micro_store.Utility.{crc32}
use micro_store.Utility.Chaining.{AreBytes, crc32-append, crc32-nil, crc32_lt}

-- The methods of `FileImpl` that read and write, which the adapters define. `read_byte` gives the
-- int as a number of 32 bits; `read` gives the bytes read, or `none` for -1; the two that write
-- give the number of bytes written.
pub record FileImpl (I : Type 0) : Type 0 where
  pub available : I → ℕ
  pub read_byte : I → I × ℕ
  pub write_byte : I → ℕ → I × ℕ
  pub read : I → ℕ → I × Option (List ℕ)
  pub write : I → List ℕ → I × ℕ

pub record File (I : Type 0) : Type 0 where
  pub impl : I
  pub crc : ℕ

abbrev pub concat : List (List ℕ) → List ℕ
concat [] = []
concat (c ∷ cs) = c ++ concat cs

abbrev pub AllBytes : List (List ℕ) → Type 0
AllBytes [] = Unit
AllBytes (c ∷ cs) = AreBytes c × AllBytes cs

module _ {I : Type 0} (methods : FileImpl I) where
  -- `read` of a byte; `none` is EOF.
  unfoldable pub read_byte : File I → File I × Option ℕ
  read_byte f =
      let (impl, ch) = methods.read_byte f.impl in
      if ltb 0 (methods.available f.impl)
      then (record { impl = impl; crc = crc32 f.crc (some (ch % 256 ∷ [])) }, some ch)
      else (f, none)

  unfoldable pub write_byte : File I → ℕ → File I × ℕ
  write_byte f byte =
      let (impl, n) = methods.write_byte f.impl byte in
      (record { impl = impl; crc = crc32 f.crc (some (byte ∷ [])) }, n)

  checked : File I → Option (List ℕ) → ℕ
  checked f none = f.crc
  checked f (some []) = f.crc
  checked f (some (b ∷ bs)) = crc32 f.crc (some (b ∷ bs))

  -- `read` into a buffer.
  unfoldable pub read : File I → ℕ → File I × Option (List ℕ)
  unfolding checked
  read f size =
      let (impl, bytes) = methods.read f.impl size in
      (record { impl = impl; crc = checked f bytes }, bytes)

  unfoldable pub write : File I → List ℕ → File I × ℕ
  write f buffer =
      let (impl, n) = methods.write f.impl buffer in
      (record { impl = impl; crc = crc32 f.crc (some buffer) }, n)

  -- Writes in turn.
  unfoldable pub write_all : File I → List (List ℕ) → File I
  write_all f [] = f
  write_all f (c ∷ cs) = write_all (write f c).0 cs

  -- However a text is cut for the writes, the checksum of the file is that of the whole text,
  -- continued from the checksum before, which is a number of 32 bits.
  pub crc-write_all :
      (f : File I) (chunks : List (List ℕ))
      → f.crc < 2 ^ 32
      → AllBytes chunks
      → (write_all f chunks).crc ≡ crc32 f.crc (some (concat chunks))
  unfolding write_all write
  crc-write_all f [] h bytes = sym (crc32-nil f.crc h)
  crc-write_all f (c ∷ cs) h (first, bytes) =
      crc-write_all (write f c).0 cs (crc32_lt f.crc c) bytes
      ∙ crc32-append f.crc c (concat cs) first
