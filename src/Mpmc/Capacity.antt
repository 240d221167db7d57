-- ===== src/Mpmc/Capacity.antt =====
-- A ring of one slot, which mpmc_ring_init accepts: a free slot and a filled one look the same.
use vs_slns.Base.{ℕ, ◌+◌, ◌^◌, ◌<◌, ◌≡◌, refl, [], ◌∷◌, arith}
use vs_slns.Mpmc.{
  word, dif, slot, mpmc_ring_init, idle, System, pick, Reach, start, call_enqueue, load_tail,
  is_free, claim, store_item, publish,
}
use vs_slns.Mpmc.Runs.{Run, ◌▷◌}

module _ (d e : ℕ) (seqs items : ℕ → ℕ) where
  abbrev new : Run 1
  unfolding mpmc_ring_init
  new = record { sent = _; got = _; last = _; reach = start seqs items refl }

  -- One call of `mpmc_ring_enqueue` by thread 0.
  abbrev first : Run 1
  unfolding slot mpmc_ring_init
  first =
      new
      ▷ pick 0 (call_enqueue {d = d})
      ▷ pick 0 load_tail
      ▷ pick 0 (is_free refl)
      ▷ pick 0 (claim refl)
      ▷ pick 0 store_item
      ▷ pick 0 publish

  abbrev second : Run 1
  unfolding slot mpmc_ring_init
  second =
      first
      ▷ pick 0 (call_enqueue {d = e})
      ▷ pick 0 load_tail
      ▷ pick 0 (is_free refl)
      ▷ pick 0 (claim refl)
      ▷ pick 0 store_item
      ▷ pick 0 publish

  -- A ring of capacity 1 is accepted, and two items put into it one after the other are both
  -- accepted: the second replaces the first, which no consumer returned, and a consumer finds the
  -- slot neither ready nor empty, so that it goes round its loop.
  pub one_slot_loses :
      (s : System) × Reach 1 (d ∷ e ∷ []) [] s
      × ((i : ℕ) → s.pc i ≡ idle)
      × (s.mem.head ≡ 0)
      × (s.mem.item (slot 1 0) ≡ e)
      × (0 < dif (s.mem.seq (slot 1 0)) (word (s.mem.head + 1)))
      × (dif (s.mem.seq (slot 1 0)) (word (s.mem.head + 1)) < 2 ^ 63)
  unfolding slot mpmc_ring_init
  one_slot_loses =
      (second.last, second.reach, λ i. ground arith, refl, refl, omega arith, omega arith)
