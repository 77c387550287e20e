-- ===== src/FileDescriptor/Buffers.antt =====
-- How `read` into several buffers divides what the system reads.
use computer_networking.Prelude.{
  ltb→lt, ltb→ge, Bool-cases, inl, inr, ◌⊎◌, ℕ, zero, suc, ◌≤◌, ◌≡◌, refl, sym, ap, ◌∙◌, true, none,
  some, List, [], ◌∷◌, ◌++◌, ltb, length, length-drop, length-take, take, drop, take-append-drop,
  nil-of_length, ge→ltb, arith, ne→==, ◌≢◌,
}
use computer_networking.Parser.{concat, total}
use computer_networking.FileDescriptor.{
  FdWrapper, Returned, sizes_of, sum_of, spread, fill, read_buffers, write_buffers, register_read,
  register_write, check_system_call,
}

-- Buffers within their sizes, where only a full buffer is followed by one that is not empty.
abbrev pub IsSpread : List ℕ → List (List ℕ) → Type 0
IsSpread [] bufs = bufs ≡ []
IsSpread (n ∷ ns) [] = ⊥
IsSpread (n ∷ ns) (b ∷ bs) = (length b ≤ n) × ((length b ≡ n) ⊎ (concat bs ≡ [])) × IsSpread ns bs

spread-nil : (sizes : List ℕ) → concat (spread sizes []) ≡ []
spread-nil [] = refl
spread-nil (zero ∷ ns) = spread-nil ns
spread-nil (suc n ∷ ns) = spread-nil ns

spread-IsSpread : (sizes : List ℕ) (bytes : List ℕ) → IsSpread sizes (spread sizes bytes)
spread-IsSpread [] bytes = refl
spread-IsSpread (n ∷ ns) bytes = (
  omega (arith, length-take n bytes),
  elim (Bool-cases (ltb (length bytes) n)) [
    | inl l ↦ inr (
        ap (λ (xs : List ℕ). concat (spread ns xs))
          (nil-of_length (drop n bytes)
            (omega (arith, ltb→lt (length bytes) n l, length-drop n bytes)))
        ∙ spread-nil ns)
    | inr l ↦ inl (omega (arith, ltb→ge (length bytes) n l, length-take n bytes))
  ],
  spread-IsSpread ns (drop n bytes),
)

concat-spread :
    (sizes : List ℕ) (bytes : List ℕ)
    → length bytes ≤ sum_of sizes
    → concat (spread sizes bytes) ≡ bytes
concat-spread [] bytes h = sym (nil-of_length bytes (omega arith))
concat-spread (n ∷ ns) bytes h =
    ap (λ (xs : List ℕ). take n bytes ++ xs)
      (concat-spread ns (drop n bytes) (omega (arith, length-drop n bytes)))
    ∙ take-append-drop n bytes

-- Where the system reads no more bytes than the buffers take, the last one made 16384 long, `read`
-- into buffers counts one read and returns as many buffers, each within its size, that hold the
-- bytes in order and of which only full ones are followed by more bytes.
pub read_buffers-IsSpread :
    (bytes : List ℕ) (x : List ℕ) (xs : List (List ℕ)) (w : FdWrapper)
    → length bytes ≤ sum_of (sizes_of (x ∷ xs))
    → (bufs : List (List ℕ)) × (read_buffers (Returned.returns bytes) (x ∷ xs) w
        ≡ (register_read w, some bufs))
      × (concat bufs ≡ bytes)
      × IsSpread (sizes_of (x ∷ xs)) bufs
unfolding read_buffers fill
read_buffers-IsSpread bytes x xs w h =
    let sizes = sizes_of (x ∷ xs) in
    (
      spread sizes bytes,
      rw (ge→ltb (sum_of sizes) (length bytes) h),
      concat-spread sizes bytes h,
      spread-IsSpread sizes bytes,
    )

-- A write that would block throws, unless there is nothing to write.
pub write_buffers-again :
    (buffers : List (List ℕ)) (w : FdWrapper)
    → w.non_blocking ≡ true
    → total buffers ≢ 0
    → write_buffers (Returned.fails true) buffers w ≡ (register_write w, none)
unfolding write_buffers check_system_call
write_buffers-again buffers w h k = rw (h, ne→== (total buffers) 0 k)
