-- ===== src/Forward/Field.antt =====
-- The timestamp field: the loop over its zero bytes, and what stands in it.
use vs_slns.Base.{
  ℕ, zero, suc, ◌+◌, ◌/◌, ◌%◌, ◌^◌, ◌≤◌, ◌<◌, ◌≡◌, refl, sym, ap, ◌∙◌, ◌⊎◌, inl, inr, false, List,
  [], ◌∷◌, ◌++◌, none, some, ◌==◌, ltb_iff, if◌then◌else◌, length, set, arith, Option-cases,
  length-append,
}
use vs_slns.Forward.{digits, printed, overlay, memchr, fill_spaces}

-- A space for each 0.
abbrev pub spaced : List ℕ → List ℕ
spaced [] = []
spaced (x ∷ xs) = (if x == 0 then b' ' else x) ∷ spaced xs

abbrev pub zeros : List ℕ → ℕ
zeros [] = 0
zeros (x ∷ xs) = if x == 0 then zeros xs + 1 else zeros xs

suc-==-zero : (x : ℕ) → (suc x == 0) ≡ false
suc-==-zero x = ground arith

-- Where the first 0 is, when the head is none.
memchr-suc :
    (x : ℕ) (xs : List ℕ)
    → ((memchr (suc x ∷ xs) 0 ≡ none) × (memchr xs 0 ≡ none))
      ⊎ ((i : ℕ) × (memchr (suc x ∷ xs) 0 ≡ some (suc i)) × (memchr xs 0 ≡ some i))
memchr-suc x xs = elim (Option-cases (memchr xs 0)) [
  | inl f ↦ inl (rw (suc-==-zero x, f) refl, f)
  | inr (i, f) ↦ inr (i, rw (suc-==-zero x, f) refl, f)
]

no_zeros : (xs : List ℕ) → memchr xs 0 ≡ none → spaced xs ≡ xs
no_zeros [] e = refl
no_zeros (zero ∷ xs) e = cc
no_zeros (suc x ∷ xs) e = elim (memchr-suc x xs) [
  | inl (_, f) ↦ rw (suc-==-zero x) (ap (λ ys. suc x ∷ ys) (no_zeros xs f))
  | inr (i, f, _) ↦ cc
]

one_less :
    (xs : List ℕ) (i : ℕ)
    → memchr xs 0 ≡ some i
    → (zeros xs ≡ zeros (set xs i b' ') + 1) × (spaced (set xs i b' ') ≡ spaced xs)
one_less [] i e = cc
one_less (zero ∷ xs) zero e = (refl, refl)
one_less (zero ∷ xs) (suc i) e = grind arith
one_less (suc x ∷ xs) zero e = elim (memchr-suc x xs) [ inl (f, _) ↦ cc | inr (j, f, _) ↦ cc ]
one_less (suc x ∷ xs) (suc i) e = elim (memchr-suc x xs) [
  | inl (f, _) ↦ cc
  | inr (j, f, g) ↦
      let k = one_less xs i (g ∙ cc) in rw (suc-==-zero x) (k.0, ap (λ ys. suc x ∷ ys) k.1)
]

-- The loop ends with a space for each 0, if its fuel is more than the number of zeros.
pub fill_spaces-spaced :
    (fuel : ℕ) (xs : List ℕ) → zeros xs < fuel → fill_spaces fuel xs ≡ some (spaced xs)
unfolding fill_spaces
fill_spaces-spaced zero xs h = absurd (omega arith)
fill_spaces-spaced (suc fuel) xs h = elim (Option-cases (memchr xs 0)) [
  | inl e ↦ rw (e, fill_spaces) (ap some (sym (no_zeros xs e)))
  | inr (i, e) ↦
      let k = one_less xs i e in
      rw (e, fill_spaces)
        (fill_spaces-spaced fuel (set xs i b' ') (omega (arith, k.0)) ∙ ap some k.1)
]

pub zeros-length : (xs : List ℕ) → zeros xs ≤ length xs
zeros-length [] = omega arith
zeros-length (x ∷ xs) = ground (arith, zeros-length xs)

pub length-digits : (w n : ℕ) → length (digits w n) ≡ w
unfolding digits
length-digits zero n = refl
length-digits (suc w) n =
    length-append (digits w (n / 10)) ((b'0' + n % 10) ∷ [])
    ∙ ground (arith, length-digits w (n / 10))

pub printed-digits : (w n : ℕ) → n < 10 ^ w → printed w n ≡ digits w n
printed-digits w n h = rw ((ltb_iff n (10 ^ w)).1 h) refl

pub spaced-append : (xs ys : List ℕ) → spaced (xs ++ ys) ≡ spaced xs ++ spaced ys
spaced-append [] ys = refl
spaced-append (x ∷ xs) ys = ap (λ zs. (if x == 0 then b' ' else x) ∷ zs) (spaced-append xs ys)

spaced-digit : (c : ℕ) → spaced ((b'0' + c) ∷ []) ≡ (b'0' + c) ∷ []
spaced-digit c = ground arith

pub spaced-digits : (w n : ℕ) → spaced (digits w n) ≡ digits w n
unfolding digits
spaced-digits zero n = refl
spaced-digits (suc w) n =
    spaced-append (digits w (n / 10)) ((b'0' + n % 10) ∷ [])
    ∙ rw (spaced-digits w (n / 10), spaced-digit (n % 10)) refl

pub overlay-append : (xs ys zs : List ℕ) → length xs ≡ length ys → overlay xs (ys ++ zs) ≡ xs ++ zs
overlay-append [] [] zs e = refl
overlay-append [] (y ∷ ys) zs e = absurd (omega arith)
overlay-append (x ∷ xs) [] zs e = absurd (omega arith)
overlay-append (x ∷ xs) (y ∷ ys) zs e = ap (λ us. x ∷ us) (overlay-append xs ys zs (omega arith))
