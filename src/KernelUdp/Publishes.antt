-- ===== src/KernelUdp/Publishes.antt =====
-- What the two storing threads publish of the datagrams of a socket.
use vs_slns.Base.{
  ℕ, zero, suc, ◌+◌, ◌-◌, ◌≤◌, ◌≡◌, refl, sym, ap, subst, ◌∙◌, ◌⊎◌, inl, inr, false, List, [], ◌∷◌,
  ◌++◌, some, ◌==◌, ltb, if◌then◌else◌, length, length-set, replicate, map, arith, Bool-cases,
  Option-cases, returns, ◌>>=◌, Returns,
}
use vs_slns.Forward.{
  field_size, overlay, take, strchr, open_object, fill_spaces, timestamp, digits, stamp,
}
use vs_slns.KernelUdp.{
  Received, eagain, ewouldblock, other_error, datagram, Stat, receive_error, received, got,
}
use vs_slns.KernelUdp.Threads.{Sizes, Message, Cup, epoch, receive, publish_one, store_until_empty}

-- The field of every datagram: the time 0, and spaces.
abbrev pub epoch_field : List ℕ
unfolding timestamp digits
epoch_field = timestamp epoch 0 ++ replicate 4 b' '

stamp-first :
    (load : List ℕ)
    → stamp epoch 0 (replicate field_size 0) load ≡ some (epoch_field, open_object load)
unfolding stamp timestamp digits fill_spaces
stamp-first load = refl

stamp-again :
    (load : List ℕ) → stamp epoch 0 epoch_field load ≡ some (epoch_field, open_object load)
unfolding stamp timestamp digits fill_spaces
stamp-again load = refl

-- The bytes of the datagrams that come before `recvfrom` gives up; an empty one is passed over.
abbrev pub delivered : List Received → List (List ℕ)
delivered [] = []
delivered (eagain ∷ rs) = []
delivered (ewouldblock ∷ rs) = delivered rs
delivered (other_error ∷ rs) = []
delivered (datagram bytes now accepted ∷ rs) =
    if length bytes == 0 then delivered rs else bytes ∷ delivered rs

-- The datagrams fit behind the header.
abbrev pub Fit : ℕ → List Received → Type 0
Fit room [] = Unit
Fit room (datagram bytes now accepted ∷ rs) = (length bytes ≤ room) × Fit room rs
Fit room (_ ∷ rs) = Fit room rs

abbrev pub message : List ℕ → Message
message bytes = record {
  tcp_name = [];
  payload_sz = length bytes + field_size;
  timestamp_field = epoch_field;
  payload = open_object bytes;
}

-- The buffer between two datagrams.
pub record Ready (sz : Sizes) (c : Cup) : Type 0 where
  pub field : (c.timestamp_field ≡ replicate field_size 0) ⊎ (c.timestamp_field ≡ epoch_field)
  pub room : length c.load ≡ sz.buffer_size - sz.main_load_offset

take-all : (n : ℕ) (xs : List ℕ) → length xs ≤ n → take n xs ≡ xs
take-all zero [] h = refl
take-all zero (x ∷ xs) h = absurd (omega arith)
take-all (suc n) [] h = refl
take-all (suc n) (x ∷ xs) h = ap (λ ys. x ∷ ys) (take-all n xs (omega arith))

length-overlay : (xs ys : List ℕ) → length xs ≤ length ys → length (overlay xs ys) ≡ length ys
length-overlay [] ys h = refl
length-overlay (x ∷ xs) [] h = absurd (omega arith)
length-overlay (x ∷ xs) (y ∷ ys) h = ap suc (length-overlay xs ys (omega arith))

length-open_object : (xs : List ℕ) → length (open_object xs) ≡ length xs
length-open_object xs = elim (Option-cases (strchr xs b'{')) [
  | inl e ↦ rw (open_object, e) refl
  | inr (i, e) ↦ rw (open_object, e) (length-set xs i b' ')
]

open_object-cons :
    (x : ℕ) (xs : List ℕ)
    → open_object (x ∷ xs)
      ≡ (if x == b'{' then b' ' ∷ xs else if x == 0 then x ∷ xs else x ∷ open_object xs)
open_object-cons x xs = elim (Option-cases (strchr xs b'{')) [
  | inl e ↦ rw (open_object, e) (ground arith)
  | inr (i, e) ↦ rw (open_object, e) (ground arith)
]

take-overlay : (xs ys : List ℕ) → length xs ≤ length ys → take (length xs) (overlay xs ys) ≡ xs
take-overlay [] ys h = refl
take-overlay (x ∷ xs) [] h = absurd (omega arith)
take-overlay (x ∷ xs) (y ∷ ys) h = ap (λ zs. x ∷ zs) (take-overlay xs ys (omega arith))

-- The brace is looked for in the bytes behind the datagram as well; what is published of it does not
-- depend on them.
take-open_object :
    (xs ys : List ℕ)
    → length xs ≤ length ys
    → take (length xs) (open_object (overlay xs ys)) ≡ open_object xs
take-open_object [] ys h = refl
take-open_object (x ∷ xs) [] h = absurd (omega arith)
take-open_object (x ∷ xs) (y ∷ ys) h =
    let same = take-overlay xs ys (omega arith) in
    let rest = take-open_object xs ys (omega arith) in
    rw (open_object-cons x (overlay xs ys), open_object-cons x xs)
      (elim (Bool-cases (x == b'{')) [
        | inl e ↦ rw e (ap (λ zs. b' ' ∷ zs) same)
        | inr e ↦ elim (Bool-cases (x == 0)) [
          | inl f ↦ rw (e, f) (ap (λ zs. x ∷ zs) same)
          | inr f ↦ rw (e, f) (ap (λ zs. x ∷ zs) rest)
        ]
      ])

stamp-Ready :
    (field load : List ℕ)
    → (field ≡ replicate field_size 0) ⊎ (field ≡ epoch_field)
    → stamp epoch 0 field load ≡ some (epoch_field, open_object load)
stamp-Ready field load (inl e) = ap (λ f. stamp epoch 0 f load) e ∙ stamp-first load
stamp-Ready field load (inr e) = ap (λ f. stamp epoch 0 f load) e ∙ stamp-again load

-- The buffer after a datagram.
abbrev after : List ℕ → Cup → Cup
after bytes c = record {
  tcp_name = [];
  timestamp_field = epoch_field;
  load = open_object (overlay bytes c.load);
  published = c.published ++ (message bytes ∷ []);
}

module _ (sz : Sizes) (inside : sz.main_load_offset ≤ sz.buffer_size) where
  receive-publish_one :
      (bytes : List ℕ) (c : Cup)
      → Ready sz c
      → length bytes ≤ sz.buffer_size - sz.main_load_offset
      → (receive sz bytes c >>= publish_one (length bytes)) ≡ returns (after bytes c)
  unfolding receive publish_one fill_spaces epoch_field
  receive-publish_one bytes c ok h =
      let fits : ltb sz.buffer_size (sz.main_load_offset + length bytes) ≡ false = ground arith in
      let e = stamp-Ready c.timestamp_field (overlay bytes c.load) ok.field in
      let shown = take-open_object bytes c.load (omega (arith, ok.room)) in
      rw (fits, receive, e, shown) refl

  after-Ready :
      (bytes : List ℕ) (c : Cup)
      → Ready sz c
      → length bytes ≤ sz.buffer_size - sz.main_load_offset
      → Ready sz (after bytes c)
  after-Ready bytes c ok h = record {
    field = inr refl;
    room =
        length-open_object (overlay bytes c.load)
        ∙ length-overlay bytes c.load (omega (arith, ok.room))
        ∙ ok.room;
  }

  -- What holds after the datagrams of a socket.
  abbrev Done : Cup → List Received → Cup → Type 0
  Done c rs last = (last.published ≡ c.published ++ map message (delivered rs)) × Ready sz last

  append-nil : {A : Type 0} (xs : List A) → xs ++ [] ≡ xs
  append-nil [] = refl
  append-nil (x ∷ xs) = ap (λ ys. x ∷ ys) (append-nil xs)

  append-one : {A : Type 0} (xs ys : List A) (y : A) → (xs ++ (y ∷ [])) ++ ys ≡ xs ++ (y ∷ ys)
  append-one [] ys y = refl
  append-one (x ∷ xs) ys y = ap (λ zs. x ∷ zs) (append-one xs ys y)

  -- If every datagram fits behind the header, draining a socket ends and publishes one message for each
  -- datagram that is not empty, up to the first call that finds the socket empty or fails, in their
  -- order, whatever earlier datagrams left in the buffer: its payload is the datagram with the first
  -- brace blanked, its time the second 0 of 1970, its connection's name empty. The buffer can then take
  -- the next datagram.
  pub store_until_empty-publishes :
      (rs : List Received) (s : Stat) (c : Cup)
      → Ready sz c
      → Fit (sz.buffer_size - sz.main_load_offset) rs
      → Returns
          (λ last. (last.published ≡ c.published ++ map message (delivered rs)) × Ready sz last)
          (store_until_empty sz rs s (returns c)).1
  unfolding store_until_empty
  store_until_empty-publishes [] s c ok h = (sym (append-nil c.published), ok)
  store_until_empty-publishes (eagain ∷ rs) s c ok h = (sym (append-nil c.published), ok)
  store_until_empty-publishes (ewouldblock ∷ rs) s c ok h = store_until_empty-publishes rs s c ok h
  store_until_empty-publishes (other_error ∷ rs) s c ok h = (sym (append-nil c.published), ok)
  store_until_empty-publishes (datagram bytes now accepted ∷ rs) s c ok (h, hs) =
      let whole = take-all sz.buffer_size bytes (omega (arith, inside)) in
      elim (Bool-cases (length bytes == 0)) [
        | inl e ↦
            rw (store_until_empty, whole, e)
              (store_until_empty-publishes rs (receive_error s) c ok hs)
        | inr e ↦
            let stat : Stat =
              if accepted then got (length bytes) now (received s) else received s in
            let next = after bytes c in
            let rest = store_until_empty-publishes rs stat next (after-Ready bytes c ok h) hs in
            rw (store_until_empty, whole, e, receive-publish_one bytes c ok h)
              (subst
                (λ ms.
                  Returns (λ last. (last.published ≡ ms) × Ready sz last)
                    (store_until_empty sz rs stat (returns next)).1)
                (append-one c.published (map message (delivered rs)) (message bytes)) rest)
      ]
