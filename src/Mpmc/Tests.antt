-- ===== src/Mpmc/Tests.antt =====
-- A ring of two slots and its theorems at runs of it.
use vs_slns.Base.{ℕ, ◌+◌, ◌^◌, ◌<◌, ◌≡◌, ◌≢◌, refl, arith, length, ◌∷◌, [], get_or, none}
use vs_slns.Mpmc.{
  slot, mpmc_ring_init, pick, start, call_enqueue, load_tail, is_free, claim, store_item, publish,
  call_dequeue, load_head, is_ready, take, load_item, release, dif, idle, System, Reach, word,
}
use vs_slns.Mpmc.Slots.{IsGood}
use vs_slns.Mpmc.Inv.{In, consuming}
use vs_slns.Mpmc.Queue.{holding-apart, returns-once}
use vs_slns.Mpmc.Lossless.{taken-returned}
use vs_slns.Mpmc.Capacity.{one_slot_loses}
use vs_slns.Mpmc.Runs.{Run, ◌▷◌}

two-IsGood : IsGood 2
two-IsGood = record { k = 1; shape = refl; many = omega arith; fits = omega arith }

abbrev new : Run 2
unfolding mpmc_ring_init
new = record { sent = _; got = _; last = _; reach = start (λ _. 99) (λ _. 99) refl }

-- Thread 0 puts 7 into the ring.
abbrev one : Run 2
unfolding slot mpmc_ring_init
one =
    new
    ▷ pick 0 (call_enqueue {d = 7})
    ▷ pick 0 load_tail
    ▷ pick 0 (is_free refl)
    ▷ pick 0 (claim refl)
    ▷ pick 0 store_item
    ▷ pick 0 publish

-- Thread 1 takes it, and thread 0 claims the next position for 8.
abbrev busy : Run 2
unfolding slot mpmc_ring_init
busy =
    one
    ▷ pick 1 call_dequeue
    ▷ pick 1 load_head
    ▷ pick 1 (is_ready refl)
    ▷ pick 1 (take refl)
    ▷ pick 0 (call_enqueue {d = 8})
    ▷ pick 0 load_tail
    ▷ pick 0 (is_free refl)
    ▷ pick 0 (claim refl)

-- Thread 1 has read the item.
abbrev ready : Run 2
unfolding slot mpmc_ring_init
ready = busy ▷ pick 1 load_item

abbrev done : Run 2
unfolding slot mpmc_ring_init
done = ready ▷ pick 1 release

-- Thread 0 has put 8 into the ring as well, and comes with 9.
abbrev filled : Run 2
unfolding slot mpmc_ring_init
filled =
    one
    ▷ pick 0 (call_enqueue {d = 8})
    ▷ pick 0 load_tail
    ▷ pick 0 (is_free refl)
    ▷ pick 0 (claim refl)
    ▷ pick 0 store_item
    ▷ pick 0 publish
    ▷ pick 0 (call_enqueue {d = 9})
    ▷ pick 0 load_tail

abbrev asking : Run 2
unfolding slot mpmc_ring_init
asking = new ▷ pick 1 call_dequeue ▷ pick 1 load_head

holding-apart_example : slot 2 1 ≢ slot 2 0
unfolding slot mpmc_ring_init
holding-apart_example =
    holding-apart two-IsGood busy.reach (omega arith) 0 1 1 0 (omega arith) refl refl

returns-once_example : (0 < length ready.sent) × (get_or ready.sent 0 0 ≡ 7) × ¬ In 0 ready.got
unfolding slot mpmc_ring_init
returns-once_example =
    returns-once two-IsGood ready.reach (omega arith) {t = done.last} 7 0 (pick 1 release)

done_quiet : (i : ℕ) → consuming (done.last.pc i) ≡ none
unfolding slot mpmc_ring_init
done_quiet i = ground arith

taken-returned_example : In 0 done.got
unfolding slot mpmc_ring_init
taken-returned_example =
    taken-returned two-IsGood done.reach (omega arith) done_quiet 0 (omega arith)

one_slot_loses_example :
    (s : System) × Reach 1 (1 ∷ 2 ∷ []) [] s
    × ((i : ℕ) → s.pc i ≡ idle)
    × (s.mem.head ≡ 0)
    × (s.mem.item (slot 1 0) ≡ 2)
    × (0 < dif (s.mem.seq (slot 1 0)) (word (s.mem.head + 1)))
    × (dif (s.mem.seq (slot 1 0)) (word (s.mem.head + 1)) < 2 ^ 63)
one_slot_loses_example = one_slot_loses 1 2 (λ _. 0) (λ _. 0)
