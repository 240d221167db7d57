-- ===== src/KernelUdp/Overruns.antt =====
-- The datagrams that do not fit behind the header of the buffer.
use vs_slns.Base.{
  ℕ, zero, suc, ◌+◌, ◌-◌, ◌≤◌, ◌<◌, ◌≡◌, refl, inl, inr, Bool, true, false, List, [], ◌∷◌, ◌==◌,
  ltb, length, arith, Bool-cases, returns, undefined,
}
use vs_slns.Forward.{take}
use vs_slns.KernelUdp.{Received, eagain, ewouldblock, other_error, datagram, Stat, receive_error}
use vs_slns.KernelUdp.Threads.{Sizes, Cup, receive, store_until_empty}

module _ (sz : Sizes) (inside : sz.main_load_offset ≤ sz.buffer_size) where
  stays_undefined :
      (rs : List Received) (s : Stat) → (store_until_empty sz rs s undefined).1 ≡ undefined
  unfolding store_until_empty
  stays_undefined [] s = refl
  stays_undefined (eagain ∷ rs) s = refl
  stays_undefined (ewouldblock ∷ rs) s = stays_undefined rs s
  stays_undefined (other_error ∷ rs) s = refl
  stays_undefined (datagram bytes now accepted ∷ rs) s =
      elim (Bool-cases (length (take sz.buffer_size bytes) == 0)) [
        | inl e ↦ rw (store_until_empty, e) (stays_undefined rs (receive_error s))
        | inr e ↦ rw (store_until_empty, e) (stays_undefined rs _)
      ]

  take-longer : (r n : ℕ) (xs : List ℕ) → r < n → r < length xs → r < length (take n xs)
  take-longer r zero xs h k = absurd (omega arith)
  take-longer r (suc n) [] h k = absurd (omega arith)
  take-longer zero (suc n) (x ∷ xs) h k = omega arith
  take-longer (suc r) (suc n) (x ∷ xs) h k =
      omega (arith, take-longer r n xs (omega arith) (omega arith))

  -- A datagram that is longer than the room behind the header is written over the end of the buffer,
  -- since `recvfrom` is allowed the size of the whole buffer; there is a header.
  pub store_until_empty-overruns :
      (bytes : List ℕ) (now : ℕ) (accepted : Bool) (rs : List Received) (s : Stat) (c : Cup)
      → 0 < sz.main_load_offset
      → sz.buffer_size - sz.main_load_offset < length bytes
      → (store_until_empty sz (datagram bytes now accepted ∷ rs) s (returns c)).1 ≡ undefined
  unfolding store_until_empty receive
  store_until_empty-overruns bytes now accepted rs s c h long =
      let n = length (take sz.buffer_size bytes) in
      let longer =
        take-longer (sz.buffer_size - sz.main_load_offset) sz.buffer_size bytes
          (omega (arith, inside)) long in
      let some_bytes : (n == 0) ≡ false = ground (arith, longer) in
      let outside : ltb sz.buffer_size (sz.main_load_offset + n) ≡ true =
        ground (arith, longer, inside) in
      rw (store_until_empty, some_bytes, receive, outside) (stays_undefined rs _)
