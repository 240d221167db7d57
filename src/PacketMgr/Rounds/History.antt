-- ===== src/PacketMgr/Rounds/History.antt =====
-- The ring of 16 bytes against the history of the rounds.
use vs_slns.Base.{
  ℕ, zero, suc, ◌+◌, ◌-◌, ◌%◌, ◌<◌, ◌≡◌, ◌≢◌, refl, sym, ap, ◌∙◌, Bool, true, List, [], ◌∷◌, length,
  set, get_or, replicate, arith, length-set, get_or-set_self, get_or-set_ne,
}
use vs_slns.Forward.{take}
use vs_slns.PacketMgr.Rounds.{Sending, note_round, all_zero}

-- The byte at each of the last 16 places is that of the round so long ago.
pub record History (s : Sending) (h : List ℕ) : Type 0 where
  pub size : length s.bytes ≡ 16
  pub inside : s.idx < 16
  pub reads : (k : ℕ) → k < 16 → get_or s.bytes ((s.idx + 16 - k) % 16) 0 ≡ get_or h k 0

read_back :
    (bytes : List ℕ) (i b : ℕ) (h : List ℕ)
    → length bytes ≡ 16
    → i < 16
    → ((k : ℕ) → k < 16 → get_or bytes ((i + 16 - k) % 16) 0 ≡ get_or h k 0)
    → (k : ℕ) → k < 16
    → get_or (set bytes ((i + 1) % 16) b) (((i + 1) % 16 + 16 - k) % 16) 0 ≡ get_or (b ∷ h) k 0
read_back bytes i b h size inside reads zero lt =
    let j = (i + 1) % 16 in
    let same : (j + 16 - 0) % 16 ≡ j = omega arith in
    ap (λ x. get_or (set bytes j b) x 0) same ∙ get_or-set_self bytes j b 0 (omega arith)
read_back bytes i b h size inside reads (suc k) lt =
    let j = (i + 1) % 16 in
    let x = (i + 16 - k) % 16 in
    let same : (j + 16 - suc k) % 16 ≡ x = omega arith in
    let other : j ≢ x = λ e. omega arith in
    ap (λ y. get_or (set bytes j b) y 0) same
    ∙ get_or-set_ne bytes j x b 0 other
    ∙ reads k (omega arith)

pub note_round-History :
    (s : Sending) (h : List ℕ) (b : ℕ) → History s h → History (note_round b s) (b ∷ h)
note_round-History s h b ring = record {
  size = length-set s.bytes ((s.idx + 1) % 16) b ∙ ring.size;
  inside = omega arith;
  reads = read_back s.bytes s.idx b h ring.size ring.inside ring.reads;
}

pub get_or-zeros : (n k : ℕ) → ◌≡◌ {A = ℕ} (get_or (replicate n 0) k 0) 0
get_or-zeros zero k = refl
get_or-zeros (suc n) zero = refl
get_or-zeros (suc n) (suc k) = get_or-zeros n k

all_zero-take :
    (n : ℕ) (h : List ℕ) → ((k : ℕ) → k < n → get_or h k 0 ≡ 0) → all_zero (take n h) ≡ true
all_zero-take zero h z = refl
all_zero-take (suc n) [] z = refl
all_zero-take (suc n) (x ∷ h) z =
    rw (z 0 (omega arith)) (all_zero-take n h (λ k lt. z (suc k) (omega arith)))

all_zero-get : (h : List ℕ) (k : ℕ) → all_zero h ≡ true → get_or h k 0 ≡ 0
all_zero-get [] k e = refl
all_zero-get (x ∷ h) zero e = ground arith
all_zero-get (x ∷ h) (suc k) e = all_zero-get h k (ground arith)

zero-all : (h : List ℕ) → ((k : ℕ) → k < length h → get_or h k 0 ≡ 0) → all_zero h ≡ true
zero-all [] z = refl
zero-all (x ∷ h) z = rw (z 0 (omega arith)) (zero-all h (λ k lt. z (suc k) (omega arith)))

take-zero : (n : ℕ) (h : List ℕ) (k : ℕ) → k < n → all_zero (take n h) ≡ true → get_or h k 0 ≡ 0
take-zero zero h k lt e = absurd (omega arith)
take-zero (suc n) [] k lt e = refl
take-zero (suc n) (x ∷ h) zero lt e = ground arith
take-zero (suc n) (x ∷ h) (suc k) lt e = take-zero n h k (omega arith) (ground arith)

same_truth : (a b : Bool) → (a ≡ true → b ≡ true) → (b ≡ true → a ≡ true) → a ≡ b
same_truth a b f g = ground (arith, f, g)

-- The ring is all zero exactly if the last 16 rounds had no segment.
pub History-quiet :
    (s : Sending) (h : List ℕ) → History s h → all_zero s.bytes ≡ all_zero (take 16 h)
History-quiet s h ring =
    let i = s.idx in
    same_truth (all_zero s.bytes) (all_zero (take 16 h))
      (λ e.
        all_zero-take 16 h
          (λ k lt. sym (ring.reads k lt) ∙ all_zero-get s.bytes ((i + 16 - k) % 16) e))
      (λ e. zero-all s.bytes (λ j lt.
        let k = (i + 16 - j) % 16 in
        let back : (i + 16 - k) % 16 ≡ j = omega (arith, ring.inside, ring.size, lt) in
        sym (ap (λ x. get_or s.bytes x 0) back)
        ∙ ring.reads k (omega arith)
        ∙ take-zero 16 h k (omega arith) e))
