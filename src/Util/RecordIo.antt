-- ===== src/Util/RecordIo.antt =====
-- RecordWriter and RecordReader of src/util/recordio.h, over File. The memory layout of an int and
-- the serialisation of protobuf are parameters. `none` is a use of memory or of a file that C++
-- leaves open: a closed file, and a buffer whose size wraps.
pub mod RoundTrip
use parameter_server.Base.{
  ℕ, ◌-◌, ◌+◌, ◌^◌, ◌%◌, ◌==◌, Bool, true, false, not, Option, none, some, List, length, take, ltb,
  check, ◌>>=◌, ◌>>◌, ℤ, pos, negsuc, if◌then◌else◌,
}
use parameter_server.Util.File.{File, FileLib, u32_mod, write, read, close}

abbrev pub magic_number : ℕ
magic_number = 0x3ed7230a

-- A uint32 as an int.
abbrev pub as_int : ℕ → ℤ
as_int n = if ltb n (2 ^ 31) then pos n else negsuc (u32_mod - 1 - n)

-- What the records are made with: files F, bytes B and messages P.
pub record RecordEnv (F : Type 0) (B : Type 0) (P : Type 0) : Type 0 where
  pub lib : FileLib F B
  -- the four bytes of an int, and back
  pub bytes_of : ℕ → List B
  pub int_of : List B → ℕ
  pub serialize : P → List B
  -- ParseFromArray(buffer, size) on a message; the source ignores what it returns
  pub parse : P → List B → ℤ → P

module _ {F B P : Type 0} (env : RecordEnv F B P) where
  -- RecordWriter::Close
  unfoldable pub close_writer : Option (File F) → Option (Option (File F) × Bool)
  close_writer none = some (none, false)
  close_writer (some file) = do (file', ok) ← close env.lib file; some (some file', ok)

  -- RecordWriter::WriteProtocolMessage: the file, and what it returns
  unfoldable pub write_protocol_message : Option (File F) → P → Option (Option (File F) × Bool)
  write_protocol_message none proto = some (none, false)
  write_protocol_message (some file) proto = do
    let buffer = env.serialize proto
    let buff_size = length buffer % u32_mod
    (file1, n1) ← write env.lib file (env.bytes_of magic_number)
    if not (n1 == 4) then some (some file1, false) else (do
      (file2, n2) ← write env.lib file1 (env.bytes_of buff_size)
      if not (n2 == 4) then some (some file2, false) else (do
        (file3, n3) ← write env.lib file2 (take buff_size buffer)
        some (some file3, n3 == buff_size)))

  -- RecordReader::Close
  unfoldable pub close_reader : File F → Option (File F × Bool)
  close_reader file = close env.lib file

  -- RecordReader::ReadProtocolMessage: the file, the message, and what it returns
  unfoldable pub read_protocol_message : File F → P → Option (File F × P × Bool)
  read_protocol_message file proto = do
    (file1, n1, magic) ← read env.lib file 4
    if not (n1 == 4)
        then some (file1, proto, false)
        else (if not (env.int_of magic == magic_number) then some (file1, proto, false) else (do
          (file2, n2, size_bytes) ← read env.lib file1 4
          if not (n2 == 4) then some (file2, proto, false) else (do
            let size = env.int_of size_bytes
            check (ltb size (u32_mod - 1))
            (file3, n3, buffer) ← read env.lib file2 size
            if not (n3 == size)
                then some (file3, proto, false)
                else (some (file3, env.parse proto buffer (as_int size), true)))))
