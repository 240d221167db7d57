-- ===== src/Mpmc.antt =====
-- tst_MPMC_ring_buffer/main.c: a bounded queue for many producers and many consumers, a shared access
-- at a time, with the threads interleaved in any order.
pub mod Slots
pub mod Inv
mod Moves
pub mod Steps
pub mod Queue
pub mod Lossless
pub mod Capacity
mod Runs
mod Tests
use Prim.Native.Nat.{bit_and}
use vs_slns.Base.{
  ℕ, zero, suc, ◌+◌, ◌-◌, ◌%◌, ◌^◌, ◌≤◌, ◌<◌, ◌≡◌, ◌≢◌, refl, Bool, true, false, not, List, [], ◌∷◌,
  ◌++◌, Option, none, some, ◌==◌, if◌then◌else◌, update,
}

-- A `size_t`.
abbrev pub word : ℕ → ℕ
word n = n % 2 ^ 64

-- `( intptr_t )a - ( intptr_t )b`, as the word that stands for it; a negative one is at least 2^63.
abbrev pub dif : ℕ → ℕ → ℕ
dif a b = (a + 2 ^ 64 - b) % 2 ^ 64

-- The ring: the sequence number and the item of each slot, by index.
pub record Ring : Type 0 where
  pub capacity : ℕ
  pub head : ℕ
  pub tail : ℕ
  pub seq : ℕ → ℕ
  pub item : ℕ → ℕ

-- `pos & ( rb->capacity - 1 )`
unfoldable pub slot : ℕ → ℕ → ℕ
slot capacity pos = bit_and pos (word (capacity + 2 ^ 64 - 1))

-- The loop that gives each slot its index, over what the allocation left there; 0 is NULL.
unfoldable pub init_slots : ℕ → ℕ → Ring → Ring
init_slots zero i rb = rb
init_slots (suc n) i rb =
    init_slots n (i + 1) (record rb { seq = update rb.seq i i; item = update rb.item i 0 })

-- The memory is what `malloc` and `aligned_alloc` return.
unfoldable pub mpmc_ring_init : ℕ → (ℕ → ℕ) → (ℕ → ℕ) → Bool → Option Ring
unfolding init_slots
mpmc_ring_init capacity seqs items allocated =
    if not (bit_and capacity (word (capacity + 2 ^ 64 - 1)) == 0)
    then none
    else if not allocated
    then none
    else some (
        init_slots capacity 0
          (record { capacity = capacity; head = 0; tail = 0; seq = seqs; item = items }))

-- Where a thread stands, with the local variables that are live there.
pub data Pc : Type 0 where
  idle : Pc  -- outside of both functions
  enq_start : (d : ℕ) → Pc  -- the head of the loop of `mpmc_ring_enqueue`
  enq_loaded : (d pos : ℕ) → Pc  -- before the load of `seq`
  enq_free : (d pos : ℕ) → Pc  -- before the compare-exchange
  enq_claimed : (d pos : ℕ) → Pc  -- before the store of the item
  enq_written : (d pos : ℕ) → Pc  -- before the store of `seq`
  deq_start : Pc  -- the head of the loop of `mpmc_ring_dequeue`
  deq_loaded : (pos : ℕ) → Pc
  deq_ready : (pos : ℕ) → Pc
  deq_claimed : (pos : ℕ) → Pc  -- before the load of the item
  deq_read : (d pos : ℕ) → Pc  -- before the store of `seq`

-- What a step is seen to do: a producer claims a position for its item, a consumer returns the item
-- of a position, or a call returns false.
pub data Event : Type 0 where
  silent : Event
  claims : (d : ℕ) → Event
  returns : (d pos : ℕ) → Event
  full : (pos : ℕ) → Event
  empty : (pos : ℕ) → Event

-- One access of one thread. The weak compare-exchange may fail for no reason. The counters of
-- retries, which nothing tests, are left out.
pub data Move (m : Ring) : Pc → Ring → Pc → Event → Type 0 where
  call_enqueue : {d : ℕ} → Move m idle m (enq_start d) silent
  load_tail : {d : ℕ} → Move m (enq_start d) m (enq_loaded d m.tail) silent
  is_free :
      {d pos : ℕ}
      → dif (m.seq (slot m.capacity pos)) pos ≡ 0
      → Move m (enq_loaded d pos) m (enq_free d pos) silent
  is_full :
      {d pos : ℕ}
      → 2 ^ 63 ≤ dif (m.seq (slot m.capacity pos)) pos
      → Move m (enq_loaded d pos) m idle (full pos)
  is_taken :
      {d pos : ℕ}
      → 0 < dif (m.seq (slot m.capacity pos)) pos
      → dif (m.seq (slot m.capacity pos)) pos < 2 ^ 63
      → Move m (enq_loaded d pos) m (enq_start d) silent
  claim :
      {d pos : ℕ}
      → m.tail ≡ pos
      → Move m (enq_free d pos) (record m { tail = word (pos + 1) }) (enq_claimed d pos) (claims d)
  claim_fails : {d pos : ℕ} → Move m (enq_free d pos) m (enq_start d) silent
  store_item :
      {d pos : ℕ}
      → Move m
          (enq_claimed d pos)
          (record m { item = update m.item (slot m.capacity pos) d })
          (enq_written d pos)
          silent
  publish :
      {d pos : ℕ}
      → Move m
          (enq_written d pos)
          (record m { seq = update m.seq (slot m.capacity pos) (word (pos + 1)) })
          idle
          silent
  call_dequeue : Move m idle m deq_start silent
  load_head : Move m deq_start m (deq_loaded m.head) silent
  is_ready :
      {pos : ℕ}
      → dif (m.seq (slot m.capacity pos)) (word (pos + 1)) ≡ 0
      → Move m (deq_loaded pos) m (deq_ready pos) silent
  is_empty :
      {pos : ℕ}
      → 2 ^ 63 ≤ dif (m.seq (slot m.capacity pos)) (word (pos + 1))
      → Move m (deq_loaded pos) m idle (empty pos)
  is_gone :
      {pos : ℕ}
      → 0 < dif (m.seq (slot m.capacity pos)) (word (pos + 1))
      → dif (m.seq (slot m.capacity pos)) (word (pos + 1)) < 2 ^ 63
      → Move m (deq_loaded pos) m deq_start silent
  take :
      {pos : ℕ}
      → m.head ≡ pos
      → Move m (deq_ready pos) (record m { head = word (pos + 1) }) (deq_claimed pos) silent
  take_fails : {pos : ℕ} → Move m (deq_ready pos) m deq_start silent
  load_item :
      {pos : ℕ} → Move m (deq_claimed pos) m (deq_read (m.item (slot m.capacity pos)) pos) silent
  release :
      {d pos : ℕ}
      → Move m
          (deq_read d pos)
          (record m { seq = update m.seq (slot m.capacity pos) (word (pos + m.capacity)) })
          idle
          (returns d pos)

pub record System : Type 0 where
  pub mem : Ring
  pub pc : ℕ → Pc

-- Any thread may be next.
pub data Step (s : System) : Event → System → Type 0 where
  pick :
      (i : ℕ) {m : Ring} {p : Pc} {e : Event}
      → Move s.mem (s.pc i) m p e
      → Step s e (record { mem = m; pc = update s.pc i p })

-- The items claimed for so far, in order.
abbrev pub add : List ℕ → Event → List ℕ
add sent (claims d) = sent ++ (d ∷ [])
add sent _ = sent

-- The positions returned so far, the last one first.
abbrev pub note : List ℕ → Event → List ℕ
note got (returns d pos) = pos ∷ got
note got _ = got

-- The states that a run from a new ring leads to.
pub data Reach (capacity : ℕ) : List ℕ → List ℕ → System → Type 0 where
  start :
      {rb : Ring} (seqs items : ℕ → ℕ)
      → mpmc_ring_init capacity seqs items true ≡ some rb
      → Reach capacity [] [] (record { mem = rb; pc = λ _. idle })
  later :
      {sent got : List ℕ} {s t : System} {e : Event}
      → Reach capacity sent got s
      → Step s e t
      → Reach capacity (add sent e) (note got e) t
