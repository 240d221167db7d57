-- ===== src/PacketMgr/Rounds/Quiet.antt =====
-- When the thread sleeps.
use vs_slns.Base.{
  ℕ, ◌+◌, ◌-◌, ◌%◌, ◌<◌, ◌≡◌, refl, sym, ap, subst, ◌∙◌, inl, inr, Bool, true, false, ◌&&◌, List,
  [], ◌∷◌, Option, none, some, if◌then◌else◌, if-both, length, get_or, replicate, arith, Bool-cases,
  is_ok,
}
use vs_slns.PersistCache.{GatewayOpenStat}
use vs_slns.Forward.{take}
use vs_slns.PacketMgr.Rounds.{
  Turn, Sending, note_round, let_files_in, shut_gate, count_segment, all_zero, rest_if_quiet,
  has_segment, is_last, work, finish_round, others_set_gate, last_close, round,
  process_filled_tcp_segment_proc,
}
use vs_slns.PacketMgr.Rounds.History.{History, note_round-History, History-quiet, get_or-zeros}

abbrev pub bit : Turn → ℕ
bit r = if has_segment r then 1 else 0

-- A sleep, unless one of the last 16 rounds had a segment.
abbrev pub asleep : List ℕ → ℕ
asleep h = if all_zero (take 16 h) then 1 else 0

-- The sleeps of the rounds after a history of rounds, up to the end of the loop.
abbrev pub sleeps : List Turn → List ℕ → ℕ
sleeps [] h = 0
sleeps (r ∷ rs) h =
    let rest = asleep (bit r ∷ h) + sleeps rs (bit r ∷ h) in
    if r.quit_noloss_data_thread_4 then 0 else if is_last r then 0 else rest

-- The ring and the sleeps of a state are those of another.
abbrev SameHistory : Sending → Sending → Type 0
SameHistory s t = (t.bytes ≡ s.bytes) × (t.idx ≡ s.idx) × (t.slept ≡ s.slept)

shut_gate-SameHistory : (s : Sending) → SameHistory s (shut_gate s)
shut_gate-SameHistory s = ground arith

let_files_in-SameHistory : (r : Turn) (s : Sending) → SameHistory s (let_files_in r s)
let_files_in-SameHistory r s = ground arith

count_segment-SameHistory : (r : Turn) (s : Sending) → SameHistory s (count_segment r s)
count_segment-SameHistory r s = ground arith

work-SameHistory : (r : Turn) (s : Sending) → SameHistory (note_round (bit r) s) (work r s)
work-SameHistory r s = elim (Bool-cases (has_segment r)) [
  | inl e ↦ rw e (shut_gate-SameHistory (note_round 1 s))
  | inr e ↦ rw e (let_files_in-SameHistory r (note_round 0 s))
]

History-SameHistory : (s t : Sending) (h : List ℕ) → SameHistory s t → History s h → History t h
History-SameHistory s t h (e, f, g) ring = record {
  size = ap length e ∙ ring.size;
  inside = subst (λ i. i < 16) (sym f) ring.inside;
  reads = λ k lt.
      ap (λ bytes. get_or bytes ((t.idx + 16 - k) % 16) 0) e
      ∙ ap (λ i. get_or s.bytes ((i + 16 - k) % 16) 0) f
      ∙ ring.reads k lt;
}

-- The sleep at the end of a round.
rest_if_quiet-slept :
    (s : Sending) (h : List ℕ)
    → History s h
    → History (rest_if_quiet s) h × ((rest_if_quiet s).slept ≡ s.slept + asleep h)
rest_if_quiet-slept s h ring = elim (Bool-cases (all_zero s.bytes)) [
  | inl e ↦
      let q : all_zero (take 16 h) ≡ true = sym (History-quiet s h ring) ∙ e in
      rw (e, q) (record { size = ring.size; inside = ring.inside; reads = ring.reads }, refl)
  | inr e ↦
      let q : all_zero (take 16 h) ≡ false = sym (History-quiet s h ring) ∙ e in
      rw (e, q) (ring, omega arith)
]

-- A state has this history, and slept as it says since an earlier one.
abbrev Follows : Sending → List ℕ → Sending → Type 0
Follows s h t = History t h × (t.slept ≡ s.slept + asleep h)

not-asleep : (b : Bool) (h : List ℕ) → b ≡ true → asleep ((if b then 1 else 0) ∷ h) ≡ 0
not-asleep b h e = rw e refl

counted-Follows :
    (r : Turn) (s : Sending) (h : List ℕ)
    → History s h
    → Follows s h (rest_if_quiet (count_segment r s))
counted-Follows r s h ring =
    let same = count_segment-SameHistory r s in
    let (q, e) =
      rest_if_quiet-slept (count_segment r s) h
        (History-SameHistory s (count_segment r s) h same ring) in
    (q, e ∙ ap (λ n. n + asleep h) same.2)

finish_round-Follows :
    (r : Turn) (s : Sending) (h : List ℕ)
    → History s (bit r ∷ h)
    → Follows s (bit r ∷ h) (finish_round r s)
finish_round-Follows r s h ring =
    let all = bit r ∷ h in
    if-both (Follows s all) (has_segment r) _ (rest_if_quiet s)
      (λ e.
        if-both (Follows s all) (is_ok r.marked && r.block_sending_1) s
          (rest_if_quiet (count_segment r s))
          (λ f. (ring, omega (arith, not-asleep (has_segment r) h e)))
          (λ f. counted-Follows r s all ring))
      (λ e. rest_if_quiet-slept s all ring)

others_set_gate-History :
    (g : Option GatewayOpenStat) (s : Sending) (h : List ℕ)
    → History s h
    → History (others_set_gate g s) h × ((others_set_gate g s).slept ≡ s.slept)
others_set_gate-History none s h ring = (ring, refl)
others_set_gate-History (some g) s h ring =
    (record { size = ring.size; inside = ring.inside; reads = ring.reads }, refl)

round-Follows :
    (r : Turn) (s : Sending) (h : List ℕ) → History s h → Follows s (bit r ∷ h) (round r s)
round-Follows r s h ring =
    let all = bit r ∷ h in
    let worked = work r s in
    let same = work-SameHistory r s in
    let (k, e) = finish_round-Follows r worked h (
      History-SameHistory (note_round (bit r) s) worked all same
        (note_round-History s h (bit r) ring)) in
    let (l, f) = others_set_gate-History r.set_by_others (finish_round r worked) all k in
    (l, f ∙ e ∙ ap (λ n. n + asleep all) same.2)

last_close-slept : (s : Sending) → (last_close s).slept ≡ s.slept
last_close-slept s = ground arith

process-sleeps_after :
    (rs : List Turn) (s : Sending) (h : List ℕ)
    → History s h
    → (process_filled_tcp_segment_proc rs s).0.slept ≡ s.slept + sleeps rs h
unfolding process_filled_tcp_segment_proc
process-sleeps_after [] s h ring = omega arith
process-sleeps_after (r ∷ rs) s h ring =
    let (k, e) = round-Follows r s h ring in
    let rest = process-sleeps_after rs (round r s) (bit r ∷ h) k in
    elim (Bool-cases r.quit_noloss_data_thread_4) [
      | inl f ↦ simp f (omega (arith, last_close-slept s))
      | inr f ↦ elim (Bool-cases (is_last r)) [
        | inl g ↦ simp (f, g) (omega (arith, last_close-slept (work r s), (work-SameHistory r s).2))
        | inr g ↦ simp (f, g) (omega (arith, rest, e))
      ]
    ]

-- From a ring of zeros on, the thread sleeps at the end of a round exactly if neither that round nor
-- any of the 15 before it had a segment, and at the end of no other; a round that ends the loop has no
-- sleep.
pub process-sleeps :
    (rs : List Turn) (s : Sending)
    → s.bytes ≡ replicate 16 0
    → s.idx ≡ 0
    → (process_filled_tcp_segment_proc rs s).0.slept ≡ s.slept + sleeps rs []
process-sleeps rs s e f = process-sleeps_after rs s [] (record {
  size = ap length e;
  inside = omega arith;
  reads = λ k lt.
      ap (λ bytes. get_or bytes ((s.idx + 16 - k) % 16) 0) e
      ∙ get_or-zeros 16 ((s.idx + 16 - k) % 16);
})
