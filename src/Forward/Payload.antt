-- ===== src/Forward/Payload.antt =====
-- What is published: the timestamp in its field, and the object's braces.
use vs_slns.Base.{
  ℕ, zero, suc, ◌+◌, ◌/◌, ◌%◌, ◌<◌, ◌≡◌, refl, ap, ◌∙◌, ◌⊎◌, inl, inr, List, [], ◌∷◌, ◌++◌, none,
  some, ◌==◌, if◌then◌else◌, length, set, replicate, arith, Option-cases, length-append, length-set,
  Bool-cases, false, ==_iff,
}
use vs_slns.Forward.{
  Tm, digits, format, timestamp, field_size, snprintf, fill_spaces, strchr, open_object, stamp,
}
use vs_slns.Forward.Field.{
  spaced, fill_spaces-spaced, zeros-length, printed-digits, spaced-append, spaced-digits,
  overlay-append, length-digits,
}

-- The numbers have the digits the format gives them.
unfoldable pub Printable : Tm → Type 0
Printable tm =
    (tm.year < 10000)
    × (tm.mon < 100)
    × (tm.mday < 100)
    × (tm.hour < 100)
    × (tm.min < 100)
    × (tm.sec < 100)

abbrev pub count : ℕ → List ℕ → ℕ
count b [] = 0
count b (x ∷ xs) = if x == b then count b xs + 1 else count b xs

pub count-append : (b : ℕ) (xs ys : List ℕ) → count b (xs ++ ys) ≡ count b xs + count b ys
count-append b [] ys = omega arith
count-append b (x ∷ xs) ys = ground (arith, count-append b xs ys)

digit-below : (b c : ℕ) → 57 < b → count b ((b'0' + c % 10) ∷ []) ≡ 0
digit-below b c h = ground arith

count-digits : (b w n : ℕ) → 57 < b → count b (digits w n) ≡ 0
unfolding digits
count-digits b zero n h = refl
count-digits b (suc w) n h =
    count-append b (digits w (n / 10)) ((b'0' + n % 10) ∷ [])
    ∙ omega (arith, count-digits b w (n / 10) h, digit-below b n h)

no_open : (w n : ℕ) → count b'{' (digits w n) ≡ 0
no_open w n = count-digits b'{' w n (omega arith)

no_close : (w n : ℕ) → count b'}' (digits w n) ≡ 0
no_close w n = count-digits b'}' w n (omega arith)

-- A step of the search.
strchr-step :
    (x : ℕ) (xs : List ℕ) (b i : ℕ)
    → strchr (x ∷ xs) b ≡ some i
    → ((x ≡ b) × (i ≡ 0))
      ⊎ ((j : ℕ) × ((x == b) ≡ false) × ((x == 0) ≡ false) × (strchr xs b ≡ some j) × (i ≡ suc j))
strchr-step x xs b i e = elim (Bool-cases (x == b)) [
  | inl f ↦ inl ((==_iff x b).0 f, (let k = rw f at e in grind arith))
  | inr f ↦ elim (Bool-cases (x == 0)) [
    | inl g ↦ absurd (let k = rw (f, g) at e in cc)
    | inr g ↦ elim (Option-cases (strchr xs b)) [
      | inl k ↦ absurd (let l = rw (f, g, k) at e in cc)
      | inr (j, k) ↦ inr (j, f, g, k, (let l = rw (f, g, k) at e in grind arith))
    ]
  ]
]

pub opens :
    (body behind : List ℕ) (i : ℕ)
    → strchr body b'{' ≡ some i
    → (strchr (body ++ behind) b'{' ≡ some i)
      × (set (body ++ behind) i b' ' ≡ set body i b' ' ++ behind)
      × (count b'{' body ≡ count b'{' (set body i b' ') + 1)
      × (count b'}' (set body i b' ') ≡ count b'}' body)
opens [] behind i e = cc
opens (x ∷ xs) behind i e = elim (strchr-step x xs b'{' i e) [
  | inl (f, g) ↦ rw (f, g) (refl, refl, refl, refl)
  | inr (j, f, g, k, l) ↦
      let (p, q, r, s) = opens xs behind j k in
      rw (l) (rw (f, g, p) refl, ap (λ ys. x ∷ ys) q, rw (f) r, ground (arith, s))
]

module _ (a b c d e f g : List ℕ) where
  length-format :
      length (format a b c d e f g)
      ≡ length a + (length b + (length c + (length d + (length e + (length f + (length g + 27))))))
  length-format = simp (length-append) (omega arith)

  spaced-format :
      spaced (format a b c d e f g)
      ≡ format (spaced a) (spaced b) (spaced c) (spaced d) (spaced e) (spaced f) (spaced g)
  spaced-format = simp (spaced-append) refl

  count-format_open :
      count b'{' (format a b c d e f g)
      ≡ count b'{' a
        + (count b'{' b
            + (count b'{' c
                + (count b'{' d + (count b'{' e + (count b'{' f + (count b'{' g + 1))))))
  count-format_open = simp (count-append) (omega arith)

  count-format_close :
      count b'}' (format a b c d e f g)
      ≡ count b'}' a
        + (count b'}' b
            + (count b'}' c + (count b'}' d + (count b'}' e + (count b'}' f + count b'}' g)))))
  count-format_close = simp (count-append) (omega arith)

-- A format of numbers in range is one of digits.
printed_digits :
    (tm : Tm) (ms : ℕ)
    → Printable tm
    → ms < 1000
    → timestamp tm ms
      ≡ format
          (digits 4 tm.year)
          (digits 2 tm.mon)
          (digits 2 tm.mday)
          (digits 2 tm.hour)
          (digits 2 tm.min)
          (digits 2 tm.sec)
          (digits 3 ms)
unfolding timestamp Printable
printed_digits tm ms (y, mo, d, h, mi, s) m =
    rw
      (
        printed-digits 4 tm.year y,
        printed-digits 2 tm.mon mo,
        printed-digits 2 tm.mday d,
        printed-digits 2 tm.hour h,
        printed-digits 2 tm.min mi,
        printed-digits 2 tm.sec s,
        printed-digits 3 ms m,
      )
      refl

pub length-timestamp : (tm : Tm) (ms : ℕ) → Printable tm → ms < 1000 → length (timestamp tm ms) ≡ 44
length-timestamp tm ms p m = rw (printed_digits tm ms p m) (
    length-format (digits 4 tm.year) (digits 2 tm.mon) (digits 2 tm.mday) (digits 2 tm.hour)
      (digits 2 tm.min) (digits 2 tm.sec) (digits 3 ms)
    ∙ simp (length-digits) refl)

spaced-timestamp :
    (tm : Tm) (ms : ℕ) → Printable tm → ms < 1000 → spaced (timestamp tm ms) ≡ timestamp tm ms
spaced-timestamp tm ms p m = rw (printed_digits tm ms p m) (
    spaced-format (digits 4 tm.year) (digits 2 tm.mon) (digits 2 tm.mday) (digits 2 tm.hour)
      (digits 2 tm.min) (digits 2 tm.sec) (digits 3 ms)
    ∙ simp (spaced-digits) refl)

count-timestamp :
    (tm : Tm) (ms : ℕ)
    → Printable tm
    → ms < 1000
    → (count b'{' (timestamp tm ms) ≡ 1) × (count b'}' (timestamp tm ms) ≡ 0)
count-timestamp tm ms p m = rw (printed_digits tm ms p m) (
  count-format_open (digits 4 tm.year) (digits 2 tm.mon) (digits 2 tm.mday) (digits 2 tm.hour)
        (digits 2 tm.min) (digits 2 tm.sec) (digits 3 ms)
      ∙ simp (no_open) (omega arith),
  count-format_close (digits 4 tm.year) (digits 2 tm.mon) (digits 2 tm.mday) (digits 2 tm.hour)
        (digits 2 tm.min) (digits 2 tm.sec) (digits 3 ms)
      ∙ simp (no_close) (omega arith),
)

snprintf-timestamp :
    (tm : Tm) (ms : ℕ) (before : List ℕ)
    → Printable tm
    → ms < 1000
    → length before ≡ 45
    → snprintf field_size (timestamp tm ms) (before ++ replicate 3 b' ')
      ≡ (timestamp tm ms ++ (0 ∷ [])) ++ replicate 3 b' '
snprintf-timestamp tm ms before p m h = rw (length-timestamp tm ms p m) (
    overlay-append (timestamp tm ms ++ (0 ∷ [])) before (replicate 3 b' ')
      (length-append (timestamp tm ms) (0 ∷ []) ∙ omega (arith, length-timestamp tm ms p m)))

close_text : (xs : List ℕ) → (xs ++ (b' ' ∷ [])) ++ replicate 3 b' ' ≡ xs ++ replicate 4 b' '
close_text [] = refl
close_text (x ∷ xs) = ap (λ ys. x ∷ ys) (close_text xs)

padded_text :
    (text : List ℕ)
    → length text ≡ 44
    → spaced text ≡ text
    → fill_spaces (field_size + 1) ((text ++ (0 ∷ [])) ++ replicate 3 b' ')
      ≡ some (text ++ replicate 4 b' ')
padded_text text h e =
    let filled : List ℕ = (text ++ (0 ∷ [])) ++ replicate 3 b' ' in
    let size : length filled ≡ 48 =
      length-append (text ++ (0 ∷ [])) (replicate 3 b' ')
      ∙ omega (arith, length-append text (0 ∷ [])) in
    let spaces : spaced filled ≡ (text ++ (b' ' ∷ [])) ++ replicate 3 b' ' =
      spaced-append (text ++ (0 ∷ [])) (replicate 3 b' ')
      ∙ ap (λ ys. ys ++ replicate 3 b' ')
          (spaced-append text (0 ∷ []) ∙ ap (λ ys. ys ++ (b' ' ∷ [])) e) in
    fill_spaces-spaced (field_size + 1) filled (omega (arith, zeros-length filled))
    ∙ ap some (spaces ∙ close_text text)

filled_field :
    (tm : Tm) (ms : ℕ) (before : List ℕ)
    → Printable tm
    → ms < 1000
    → length before ≡ 45
    → fill_spaces
        (field_size + 1)
        (snprintf field_size (timestamp tm ms) (before ++ replicate 3 b' '))
      ≡ some (timestamp tm ms ++ replicate 4 b' ')
filled_field tm ms before p m h =
    ap (fill_spaces (field_size + 1)) (snprintf-timestamp tm ms before p m h)
    ∙ padded_text (timestamp tm ms) (length-timestamp tm ms p m) (spaced-timestamp tm ms p m)

-- If the numbers of the time fit the format, a field whose last three bytes are spaces, as `memset`
-- and every stamp before leave it, is filled: by the text of 44 bytes and by four spaces, of which the
-- first stands for `snprintf`'s zero. The loop ends.
pub stamp-padded :
    (tm : Tm) (tv_usec : ℕ) (before body : List ℕ)
    → Printable tm
    → tv_usec < 1000000
    → length before ≡ 45
    → stamp tm tv_usec (before ++ replicate 3 b' ') body
      ≡ some (timestamp tm (tv_usec / 1000) ++ replicate 4 b' ', open_object body)
unfolding stamp
stamp-padded tm tv_usec before body p u h =
    ap (λ o. elim o [ none ↦ none | some f ↦ some (f, open_object body) ])
      (filled_field tm (tv_usec / 1000) before p (omega arith) h)

-- If the numbers of the time fit the format, the field ends in three spaces and a brace stands in the
-- datagram before any 0, what is published, the field and as many bytes as the datagram has, holds as
-- many opening and as many closing braces as the datagram did, whatever lies behind it in the buffer.
pub stamp-keeps_braces :
    (tm : Tm) (tv_usec i : ℕ) (before body behind : List ℕ)
    → Printable tm
    → tv_usec < 1000000
    → length before ≡ 45
    → strchr body b'{' ≡ some i
    → (field opened : List ℕ) × (stamp tm tv_usec (before ++ replicate 3 b' ') (body ++ behind)
        ≡ some (field, opened ++ behind))
      × (length field ≡ field_size)
      × (length opened ≡ length body)
      × (count b'{' (field ++ opened) ≡ count b'{' body)
      × (count b'}' (field ++ opened) ≡ count b'}' body)
stamp-keeps_braces tm tv_usec i before body behind p u h e =
    let ms = tv_usec / 1000 in
    let m : ms < 1000 = omega arith in
    let text = timestamp tm ms in
    let field : List ℕ = text ++ replicate 4 b' ' in
    let opened = set body i b' ' in
    let (found, apart, one, rest) = opens body behind i e in
    let (left, right) = count-timestamp tm ms p m in
    (
      field,
      opened,
      stamp-padded tm tv_usec before (body ++ behind) p u h
          ∙ ap (λ ys. some (field, ys)) (rw (found, open_object) apart),
      length-append text (replicate 4 b' ') ∙ omega (arith, length-timestamp tm ms p m),
      length-set body i b' ',
      count-append b'{' field opened ∙ omega (arith, count-append b'{' text (replicate 4 b' ')),
      count-append b'}' field opened ∙ omega (arith, count-append b'}' text (replicate 4 b' ')),
    )
