-- ===== src/FileDescriptor.antt =====
-- util/file_descriptor.hh and util/file_descriptor.cc: a handle on a kernel file descriptor. What a system call
-- returns is an argument. Handles share the state of the descriptor; it is destroyed with the last of them.
pub mod History
pub mod Buffers
mod Tests
use computer_networking.Prelude.{
  ℕ, ◌+◌, Bool, true, false, not, ◌&&◌, Option, none, some, List, [], ◌∷◌, length, take, drop, ltb,
  ◌==◌, if◌then◌else◌, u32, add_w,
}
use computer_networking.Parser.{total}

-- `class FDWrapper`.
pub record FdWrapper : Type 0 where
  pub fd : ℕ
  pub eof : Bool
  pub closed : Bool
  pub non_blocking : Bool
  pub read_count : ℕ
  pub write_count : ℕ

-- What a system call returns: a value that is not negative, or an error, which is EAGAIN or EINPROGRESS
-- where `again` is true.
pub data Returned (A : Type 0) : Type 0 where
  returns : A → Returned A
  fails : Bool → Returned A

-- The descriptor after an operation, and what the operation returns; `none` is an exception.
abbrev pub Outcome : Type 0 → Type 0
Outcome A = FdWrapper × Option A

-- `FDWrapper::CheckSystemCall`, where an error that only says to try again is a return of 0.
unfoldable pub check_system_call : Returned ℕ → FdWrapper → Option ℕ
check_system_call (returns n) w = some n
check_system_call (fails again) w = if w.non_blocking && again then some 0 else none

-- `FDWrapper( int fd )`, where `flag` is what the flags say of O_NONBLOCK.
abbrev pub init : ℕ → Bool → FdWrapper
init fd flag = record {
  fd = fd;
  eof = false;
  closed = false;
  non_blocking = flag;
  read_count = 0;
  write_count = 0;
}

-- `FDWrapper::close`.
abbrev pub after_close : FdWrapper → Option ℕ → Outcome (Unit {0})
after_close w none = (w, none)
after_close w (some n) = (record w { eof = true; closed = true }, some tt)

unfoldable pub close : Returned ℕ → FdWrapper → Outcome (Unit {0})
close r w = after_close w (check_system_call r w)

-- The destructor, which catches the exception.
unfoldable pub destroy : Returned ℕ → FdWrapper → FdWrapper
destroy r w = if w.closed then w else (close r w).0

-- `kReadBufferSize`, `register_read` and `register_write`.
abbrev pub read_buffer_size : ℕ
read_buffer_size = 16384

abbrev pub register_read : FdWrapper → FdWrapper
register_read w = record w { read_count = add_w u32 w.read_count 1 }

abbrev pub register_write : FdWrapper → FdWrapper
register_write w = record w { write_count = add_w u32 w.write_count 1 }

-- `void FileDescriptor::read( std::string& buffer )`, on the buffer before and the bytes that the system reads.
abbrev pub note_eof : ℕ → FdWrapper → FdWrapper
note_eof bytes_read w = if bytes_read == 0 then record w { eof = true } else w

unfoldable pub read : Returned (List ℕ) → List ℕ → FdWrapper → Outcome (List ℕ)
read (fails again) buffer w = if w.non_blocking && again then (w, some []) else (w, none)
read (returns bytes) buffer w =
    let size = if length buffer == 0 then read_buffer_size else length buffer in
    let w' = note_eof (length bytes) (register_read w) in
    if ltb size (length bytes) then (w', none) else (w', some bytes)

-- The sizes of the buffers to read into: the last one is made `kReadBufferSize` long.
abbrev pub sizes_of : List (List ℕ) → List ℕ
sizes_of [] = []
sizes_of (x ∷ []) = read_buffer_size ∷ []
sizes_of (x ∷ y ∷ ys) = length x ∷ sizes_of (y ∷ ys)

abbrev pub sum_of : List ℕ → ℕ
sum_of [] = 0
sum_of (n ∷ ns) = n + sum_of ns

-- The buffers are filled in order, and a buffer that is not full is resized to what it has got.
abbrev pub spread : List ℕ → List ℕ → List (List ℕ)
spread [] bytes = []
spread (n ∷ ns) bytes = take n bytes ∷ spread ns (drop n bytes)

-- `void FileDescriptor::read( std::vector<std::string>& buffers )`.
unfoldable pub fill : Returned (List ℕ) → List ℕ → FdWrapper → Outcome (List (List ℕ))
fill (fails again) sizes w = if w.non_blocking && again then (w, some []) else (w, none)
fill (returns bytes) sizes w =
    let w' = register_read w in
    if ltb (sum_of sizes) (length bytes) then (w', none) else (w', some (spread sizes bytes))

unfoldable pub read_buffers :
    Returned (List ℕ) → List (List ℕ) → FdWrapper → Outcome (List (List ℕ))
read_buffers r [] w = (w, some [])
read_buffers r (x ∷ xs) w = fill r (sizes_of (x ∷ xs)) w

-- `size_t FileDescriptor::write( const std::vector<std::string_view>& buffers )`, which the other two call.
abbrev pub after_write : ℕ → FdWrapper → Option ℕ → Outcome ℕ
after_write size w none = (w, none)
after_write size w (some n) =
    let w' = register_write w in
    if n == 0 && not (size == 0)
    then (w', none)
    else (if ltb size n then (w', none) else (w', some n))

unfoldable pub write_buffers : Returned ℕ → List (List ℕ) → FdWrapper → Outcome ℕ
write_buffers r buffers w = after_write (total buffers) w (check_system_call r w)

unfoldable pub write : Returned ℕ → List ℕ → FdWrapper → Outcome ℕ
write r buffer w = write_buffers r (buffer ∷ []) w

-- `void FileDescriptor::set_blocking( bool blocking )`, which reads the flags and writes them back.
abbrev pub after_flags : Bool → FdWrapper → Option ℕ → Option ℕ → Outcome (Unit {0})
after_flags blocking w none o = (w, none)
after_flags blocking w (some n) none = (w, none)
after_flags blocking w (some n) (some k) = (record w { non_blocking = not blocking }, some tt)

unfoldable pub set_blocking : Bool → Returned ℕ → Returned ℕ → FdWrapper → Outcome (Unit {0})
set_blocking blocking r s w = after_flags blocking w (check_system_call r w) (check_system_call s w)
