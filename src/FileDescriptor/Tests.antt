-- ===== src/FileDescriptor/Tests.antt =====
-- A descriptor that is read, closed and read again; and calls that would block.
use computer_networking.Prelude.{ℕ, ◌≡◌, refl, List, [], ◌∷◌, none, some, true, arith}
use computer_networking.Parser.{concat}
use computer_networking.FileDescriptor.{
  FdWrapper, Returned, init, read, close, check_system_call, sizes_of, read_buffers, write_buffers,
  register_read, register_write,
}
use computer_networking.FileDescriptor.History.{Call, run, run-closed}
use computer_networking.FileDescriptor.Buffers.{
  IsSpread, read_buffers-IsSpread, write_buffers-again,
}

abbrev descriptor : FdWrapper
descriptor = init 5 true

abbrev before : List Call
before = Call.read (Returned.returns (1 ∷ 2 ∷ [])) [] ∷ Call.close (Returned.returns 0) ∷ []

abbrev after : List Call
after =
    Call.write_buffers (Returned.returns 1) ((7 ∷ []) ∷ [])
    ∷ Call.set_blocking true (Returned.returns 0) (Returned.fails true)
    ∷ []

before_closed : (run before descriptor).closed ≡ true
unfolding read close check_system_call
before_closed = refl

run-closed_example :
    ((run after (run before descriptor)).closed ≡ true)
    × ((run after (run before descriptor)).eof ≡ true)
    × ((run after (run before descriptor)).fd ≡ 5)
run-closed_example = run-closed 5 true before after before_closed

read_buffers-IsSpread_example :
    (bufs : List (List ℕ)) × (read_buffers
        (Returned.returns (1 ∷ 2 ∷ 3 ∷ []))
        ((0 ∷ 0 ∷ []) ∷ [] ∷ [])
        descriptor
      ≡ (register_read descriptor, some bufs))
    × (concat bufs ≡ 1 ∷ 2 ∷ 3 ∷ [])
    × IsSpread (sizes_of ((0 ∷ 0 ∷ []) ∷ [] ∷ [])) bufs
read_buffers-IsSpread_example =
    read_buffers-IsSpread (1 ∷ 2 ∷ 3 ∷ []) (0 ∷ 0 ∷ []) ([] ∷ []) descriptor (omega arith)

write_buffers-again_example :
    write_buffers (Returned.fails true) ((7 ∷ []) ∷ []) descriptor
    ≡ (register_write descriptor, none)
write_buffers-again_example = write_buffers-again ((7 ∷ []) ∷ []) descriptor refl (λ e. omega arith)
