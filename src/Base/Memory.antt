-- ===== src/Base/Memory.antt =====
-- C memory behind a pointer: a function from offsets to bytes, read and written in runs.
use Prim.Native.Nat.{ℕ, zero, suc, ◌+◌, ◌-◌, ◌≤◌, ◌<◌}
use mathlib.Core.Path.{◌≡◌, refl, ap, ◌∙◌}
use mathlib.Core.Logic.{inl, inr}
use mathlib.Core.List.{List, [], ◌∷◌}
use native.Mathlib.Omega.{arith}
use vs_slns.Base.Tests.{◌==◌, if◌then◌else◌, Bool-cases}
use vs_slns.Base.Lists.{length}

-- A family with one entry replaced: an array of the heap, or one byte of a memory.
abbrev pub update {ℓ} : {A : Type ℓ} → (ℕ → A) → ℕ → A → ℕ → A
update f i a j = if i == j then a else f j

-- `memcpy` out of a memory: `n` bytes from offset `off`.
unfoldable pub slice : (ℕ → ℕ) → ℕ → ℕ → List ℕ
slice m off zero = []
slice m off (suc n) = m off ∷ slice m (off + 1) n

-- `memcpy` into a memory: the bytes, from offset `off`.
unfoldable pub write : (ℕ → ℕ) → ℕ → List ℕ → ℕ → ℕ
write m off [] = m
write m off (x ∷ xs) = write (update m off x) (off + 1) xs

pub length-slice : (m : ℕ → ℕ) (off n : ℕ) → length (slice m off n) ≡ n
unfolding slice
length-slice m off zero = refl
length-slice m off (suc n) = ap suc (length-slice m (off + 1) n)

-- A write leaves what lies before it.
pub write_before : (m : ℕ → ℕ) (off : ℕ) (xs : List ℕ) (p : ℕ) → p < off → write m off xs p ≡ m p
unfolding write
write_before m off [] p h = refl
write_before m off (x ∷ xs) p h = ground (arith, write_before (update m off x) (off + 1) xs p)

-- A write leaves what lies behind it.
pub write_after :
    (m : ℕ → ℕ) (off : ℕ) (xs : List ℕ) (p : ℕ) → off + length xs ≤ p → write m off xs p ≡ m p
unfolding write
write_after m off [] p h = refl
write_after m off (x ∷ xs) p h = ground (arith, write_after (update m off x) (off + 1) xs p)

-- What a copy of `n` bytes from `src` puts at an offset inside it.
pub write-slice :
    (m src : ℕ → ℕ) (off from n p : ℕ)
    → off ≤ p
    → p < off + n
    → write m off (slice src from n) p ≡ src (from + (p - off))
unfolding write slice
write-slice m src off from zero p h k = absurd (omega arith)
write-slice m src off from (suc n) p h k = elim (Bool-cases (off == p)) [
  | inl e ↦ write_before m' (off + 1) bytes p (ground arith) ∙ here (ground arith)
  | inr e ↦
      write-slice m' src (off + 1) (from + 1) n p (ground arith) (omega arith)
      ∙ ap src (ground arith)
]
  where
    m' : ℕ → ℕ
    m' = update m off (src from)

    bytes : List ℕ
    bytes = slice src (from + 1) n

    here : off ≡ p → m' p ≡ src (from + (p - off))
    here e = ground (arith, ap src (let z : from ≡ from + (p - off) = omega arith in z))

-- Two memories that agree on a range, wherever it lies in each, give the same bytes.
pub slice-shift :
    (m m' : ℕ → ℕ) (off off' n : ℕ)
    → ((i : ℕ) → i < n → m (off + i) ≡ m' (off' + i))
    → slice m off n ≡ slice m' off' n
unfolding slice
slice-shift m m' off off' zero h = refl
slice-shift m m' off off' (suc n) h =
    let first : m off ≡ m' off' = ap m (omega arith) ∙ h 0 (omega arith) ∙ ap m' (omega arith) in
    let rest =
      slice-shift m m' (off + 1) (off' + 1) n
        (λ i k. ap m (omega arith) ∙ h (i + 1) (omega arith) ∙ ap m' (omega arith)) in
    rw first (ap (λ xs. m' off' ∷ xs) rest)

pub slice-ext :
    (m m' : ℕ → ℕ) (off n : ℕ)
    → ((x : ℕ) → off ≤ x → x < off + n → m x ≡ m' x)
    → slice m off n ≡ slice m' off n
slice-ext m m' off n h = slice-shift m m' off off n (λ i k. h (off + i) (omega arith) (omega arith))
