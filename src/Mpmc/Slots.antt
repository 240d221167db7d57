-- ===== src/Mpmc/Slots.antt =====
-- A mask of ones is a remainder: two positions share a slot only a whole round apart.
use Prim.Native.Nat.{bit_and, min, digits, bit_and-bitwise}
use native.Mathlib.Nat.{
  zero-mod, mod-lt, mod-eq_of_lt, add-mod_right, mod-add-div', add-mul-mod_self_right, two-pow-succ,
}
use vs_slns.Base.{
  ℕ, zero, suc, ◌+◌, ◌-◌, ◌*◌, ◌/◌, ◌%◌, ◌^◌, ◌≤◌, ◌<◌, ◌≡◌, sym, ap, ◌∙◌, arith, dec_lt,
}
use vs_slns.Mpmc.{slot}

pub two-pow_pos : (k : ℕ) → 0 < 2 ^ k
two-pow_pos zero = omega arith
two-pow_pos (suc k) = omega (arith, two-pow_pos k, two-pow-succ k)

-- Division by twice a number, bit by bit.
mod_twice : (a m : ℕ) → 0 < m → a % (2 * m) ≡ (a / 2) % m * 2 + a % 2
mod_twice a m h =
    let r = (a / 2) % m in
    let q = a / 2 / m in
    let split : r + q * m ≡ a / 2 = mod-add-div' (a / 2) m in
    let small : r < m = mod-lt (a / 2) h in
    let twice : q * (2 * m) ≡ q * m * 2 = grind arith in
    let whole : a ≡ r * 2 + a % 2 + q * (2 * m) = omega arith in
    ap (λ n. n % (2 * m)) whole
    ∙ add-mul-mod_self_right (r * 2 + a % 2) q (2 * m)
    ∙ mod-eq_of_lt (omega arith)

-- What the native operation stands for, with its rounds as they are given.
abbrev common_bits : ℕ → ℕ → ℕ → ℕ
common_bits rounds x y = digits (λ _. zero) min rounds x y

-- Each round takes one bit off the number and one off the mask.
common_bits-ones : (rounds k x : ℕ) → x ≤ rounds → common_bits rounds x (2 ^ k - 1) ≡ x % 2 ^ k
common_bits-ones zero k zero h = sym (zero-mod (2 ^ k))
common_bits-ones (suc rounds) k zero h = sym (zero-mod (2 ^ k))
common_bits-ones zero k (suc x) h = absurd (omega arith)
common_bits-ones (suc rounds) zero (suc x) h =
    omega (arith, common_bits-ones rounds zero (suc x / 2) (omega arith))
common_bits-ones (suc rounds) (suc k) (suc x) h =
    let half : (2 ^ suc k - 1) / 2 ≡ 2 ^ k - 1 = omega (arith, two-pow-succ k, two-pow_pos k) in
    let odd : (2 ^ suc k - 1) % 2 ≡ 1 = omega (arith, two-pow-succ k, two-pow_pos k) in
    let grown : 2 ^ suc k ≡ 2 * 2 ^ k = omega (arith, two-pow-succ k) in
    let rest : common_bits rounds (suc x / 2) ((2 ^ suc k - 1) / 2) ≡ (suc x / 2) % 2 ^ k =
      ap (common_bits rounds (suc x / 2)) half
      ∙ common_bits-ones rounds k (suc x / 2) (omega arith) in
    let whole : suc x % 2 ^ suc k ≡ (suc x / 2) % 2 ^ k * 2 + suc x % 2 =
      ap (λ n. suc x % n) grown ∙ mod_twice (suc x) (2 ^ k) (two-pow_pos k) in
    omega arith

bit_and-ones : (k x : ℕ) → bit_and x (2 ^ k - 1) ≡ x % 2 ^ k
bit_and-ones k x = bit_and-bitwise x (2 ^ k - 1) ∙ common_bits-ones x k x (omega arith)

-- A capacity that the masks are right for: a power of two, and no less than two.
pub record IsGood (capacity : ℕ) : Type 0 where
  pub k : ℕ
  pub shape : capacity ≡ 2 ^ k
  pub many : 2 ≤ capacity
  pub fits : capacity < 2 ^ 62

module _ {c : ℕ} (g : IsGood c) where
  slot-mod : (p : ℕ) → slot c p ≡ p % c
  unfolding slot
  slot-mod p =
      ap (bit_and p) (omega (arith, g.many, g.fits, g.shape))
      ∙ bit_and-ones g.k p
      ∙ ap (λ n. p % n) (sym g.shape)

  pub slot-lt : (p : ℕ) → slot c p < c
  slot-lt p = omega (arith, slot-mod p, g.many, mod-lt p {m = c} (omega (arith, g.many)))

  pub slot_of_lt : (p : ℕ) → p < c → slot c p ≡ p
  slot_of_lt p h = slot-mod p ∙ mod-eq_of_lt h

  pub slot-add : (p : ℕ) → slot c (p + c) ≡ slot c p
  slot-add p = slot-mod (p + c) ∙ add-mod_right p c ∙ sym (slot-mod p)

  -- Two positions of one slot are a round apart.
  pub slot-apart : (p q : ℕ) → slot c p ≡ slot c q → p < q → p + c ≤ q
  slot-apart p q e h =
      let same : p % c ≡ q % c = sym (slot-mod p) ∙ e ∙ slot-mod q in
      let a = p / c in
      let b = q / c in
      let left : p % c + a * c ≡ p = mod-add-div' p c in
      let right : q % c + b * c ≡ q = mod-add-div' q c in
      elim (dec_lt a b) [
        | yes l ↦
            let far : suc a * c ≤ b * c = grind arith in
            let one : suc a * c ≡ a * c + c = grind arith in omega arith
        | no n ↦ let near : b * c ≤ a * c = grind arith in absurd (omega arith)
      ]
