-- ===== src/Forward/Messages.antt =====
-- What the inner loop of many_tcp_out_thread_proc publishes over a run.
use vs_slns.Base.{
  ℕ, zero, suc, ◌/◌, ◌≤◌, ◌<◌, ◌≡◌, refl, sym, ap, ◌∙◌, ◌⊎◌, inl, inr, false, List, [], ◌∷◌, ◌++◌,
  none, some, ◌==◌, if◌then◌else◌, length, set, map, replicate, arith, subst, Option-cases,
  Bool-cases, length-append, length-set, is_ok,
}
use mathlib.Core.List.{append_assoc, append-nil}
use vs_slns.Forward.{timestamp, overlay, take, strchr, open_object, stamp}
use vs_slns.Forward.Payload.{Printable, opens, length-timestamp, stamp-padded}
use vs_slns.Forward.Publish.{Popped, Out, publish, forward}

-- The datagram alone, as it is published.
abbrev pub message : Popped → List ℕ
message p = (timestamp p.tm (p.tv_usec / 1000) ++ replicate 4 b' ') ++ open_object p.datagram

-- The datagrams before the sending is stopped.
abbrev pub before_stop : List Popped → List Popped
before_stop [] = []
before_stop (p ∷ ps) = if p.stops then [] else p ∷ before_stop ps

-- Every datagram has a time that can be printed, and fits the buffer.
unfoldable pub Fits : ℕ → List Popped → Type 0
Fits size [] = Unit
Fits size (p ∷ ps) =
    (Printable p.tm) × (p.tv_usec < 1000000) × (length p.datagram ≤ size) × Fits size ps

-- The field ends in three spaces.
unfoldable pub Ready : Out → Type 0
Ready o = (start : List ℕ) × (length start ≡ 45) × (o.field ≡ start ++ replicate 3 b' ')

take-append : (xs ys : List ℕ) → take (length xs) (xs ++ ys) ≡ xs
take-append [] ys = refl
take-append (x ∷ xs) ys = ap (λ zs. x ∷ zs) (take-append xs ys)

take-set_past : (n i v : ℕ) (xs : List ℕ) → n ≤ i → take n (set xs i v) ≡ take n xs
take-set_past zero i v xs h = refl
take-set_past (suc n) i v [] h = refl
take-set_past (suc n) zero v (x ∷ xs) h = absurd (omega arith)
take-set_past (suc n) (suc i) v (x ∷ xs) h =
    ap (λ zs. x ∷ zs) (take-set_past n i v xs (omega arith))

overlay-splits :
    (xs ys : List ℕ)
    → length xs ≤ length ys
    → (behind : List ℕ) × (overlay xs ys ≡ xs ++ behind) × (length (overlay xs ys) ≡ length ys)
overlay-splits [] ys h = (ys, refl, refl)
overlay-splits (x ∷ xs) [] h = absurd (omega arith)
overlay-splits (x ∷ xs) (y ∷ ys) h =
    let (behind, e, f) = overlay-splits xs ys (omega arith) in
    (behind, ap (λ zs. x ∷ zs) e, ap suc f)

-- The search in a longer list: the same place, or one behind, or none.
strchr-append :
    (b : ℕ) (xs ys : List ℕ)
    → ((i : ℕ) × (strchr xs b ≡ some i))
      ⊎ ((strchr xs b ≡ none)
          × ((strchr (xs ++ ys) b ≡ none)
              ⊎ ((i : ℕ) × (length xs ≤ i) × (strchr (xs ++ ys) b ≡ some i))))
strchr-append b [] ys = elim (Option-cases (strchr ys b)) [
  | inl e ↦ inr (refl, inl e)
  | inr (i, e) ↦ inr (refl, inr (i, omega arith, e))
]
strchr-append b (x ∷ xs) ys = elim (Bool-cases (x == b)) [
  | inl f ↦ inl (0, rw f refl)
  | inr f ↦ elim (Bool-cases (x == 0)) [
    | inl g ↦ inr (rw (f, g) refl, inl (rw (f, g) refl))
    | inr g ↦ elim (strchr-append b xs ys) [
      | inl (i, e) ↦ inl (suc i, rw (f, g, e) refl)
      | inr (e, inl k) ↦ inr (rw (f, g, e) refl, inl (rw (f, g, k) refl))
      | inr (e, inr (i, h, k)) ↦
          inr (rw (f, g, e) refl, inr (suc i, omega arith, rw (f, g, k) refl))
    ]
  ]
]

length-open_object : (xs : List ℕ) → length (open_object xs) ≡ length xs
length-open_object xs = elim (Option-cases (strchr xs b'{')) [
  | inl e ↦ rw (e, open_object) refl
  | inr (i, e) ↦ rw (e, open_object) (length-set xs i b' ')
]

-- What lies behind the datagram does not matter to it.
take-open_object : (xs ys : List ℕ) → take (length xs) (open_object (xs ++ ys)) ≡ open_object xs
take-open_object xs ys = elim (strchr-append b'{' xs ys) [
  | inl (i, e) ↦
      let (k, apart, _, _) = opens xs ys i e in
      rw (k, e, open_object)
        (ap (take (length xs)) apart
          ∙ ap (λ n. take n (set xs i b' ' ++ ys)) (sym (length-set xs i b' '))
          ∙ take-append (set xs i b' ') ys)
  | inr (e, inl k) ↦ rw (k, e, open_object) (take-append xs ys)
  | inr (e, inr (i, h, k)) ↦
      rw (k, e, open_object) (take-set_past (length xs) i b' ' (xs ++ ys) h ∙ take-append xs ys)
]

-- What one round leaves.
abbrev Next : Popped → Out → Out → Type 0
Next p o next =
    (next.published ≡ o.published ++ (message p ∷ []))
    × Ready next
    × (length next.body ≡ length o.body)

publish_lem :
    (p : Popped) (o : Out)
    → Printable p.tm
    → p.tv_usec < 1000000
    → length p.datagram ≤ length o.body
    → Ready o
    → (next : Out) × (publish p o ≡ some next) × Next p o next
unfolding publish Ready
publish_lem p o t u h (start, e, f) =
    let (behind, split, size) = overlay-splits p.datagram o.body h in
    let text = timestamp p.tm (p.tv_usec / 1000) in
    let body = overlay p.datagram o.body in
    let stamped : stamp p.tm p.tv_usec o.field body
        ≡ some (text ++ replicate 4 b' ', open_object body) =
      ap (λ fs. stamp p.tm p.tv_usec fs body) f ∙ stamp-padded p.tm p.tv_usec start body t u e in
    (
      record {
        field = text ++ replicate 4 b' ';
        body = open_object body;
        send_errors = if is_ok p.answer then 0 else o.send_errors;
        published =
            o.published
            ++ (((text ++ replicate 4 b' ') ++ take (length p.datagram) (open_object body)) ∷ []);
      },
      rw (stamped, publish) refl,
      (
        ap (λ ys. o.published ++ (((text ++ replicate 4 b' ') ++ ys) ∷ []))
            (ap (λ ys. take (length p.datagram) (open_object ys)) split
              ∙ take-open_object p.datagram behind),
        (
          text ++ (b' ' ∷ []),
          length-append text (b' ' ∷ [])
              ∙ omega (arith, length-timestamp p.tm (p.tv_usec / 1000) t (omega arith)),
          sym (append_assoc text (b' ' ∷ []) (replicate 3 b' ')),
        ),
        length-open_object body ∙ size,
      ),
    )

forward-step :
    (p : Popped) (ps : List Popped) (o next : Out)
    → p.stops ≡ false
    → publish p o ≡ some next
    → forward (p ∷ ps) o ≡ forward ps next
unfolding forward
forward-step p ps o next e f =
    ap
      (λ b.
        if b
        then some (record o { body = overlay p.datagram o.body })
        else elim (publish p o) [ none ↦ none | some later ↦ forward ps later ])
      e
    ∙ ap (λ r. elim r [ none ↦ none | some later ↦ forward ps later ]) f

-- If every datagram fits the buffer and has a time that can be printed, and the field ends in three
-- spaces, the distributor is handed the datagrams up to the one after which the sending is stopped,
-- each once and in their order, each as it would be alone: with its own time, and whatever the buffer
-- held before. The field is ready for the next one, and the loop ends.
pub forward-publishes :
    (ps : List Popped) (o : Out)
    → Fits (length o.body) ps
    → Ready o
    → (next : Out) × (forward ps o ≡ some next)
      × (next.published ≡ o.published ++ map message (before_stop ps))
      × Ready next
unfolding forward Fits Ready
forward-publishes [] o h r = (o, refl, sym (append-nil o.published), r)
forward-publishes (p ∷ ps) o (t, u, h, hs) r = elim (Bool-cases p.stops) [
  | inl e ↦ (
    record o { body = overlay p.datagram o.body },
    rw (e) refl,
    rw (e) (sym (append-nil o.published)),
    r,
  )
  | inr e ↦
      let (next, f, (g, k, l)) = publish_lem p o t u h r in
      let (last, m, n, q) = forward-publishes ps next (subst (λ n. Fits n ps) (sym l) hs) k in
      (
        last,
        forward-step p ps o next e f ∙ m,
        rw (e) (
            n
            ∙ ap (λ ys. ys ++ map message (before_stop ps)) g
            ∙ append_assoc o.published (message p ∷ []) (map message (before_stop ps))),
        q,
      )
]
