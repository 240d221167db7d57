-- ===== src/BridgeConfig/Maps.antt =====
-- Lists of named settings seen as maps from names to settings.
use vs_slns.Base.{
  suc, ◌≤◌, ◌≡◌, refl, sym, ◌∙◌, ◌≢◌, ◌↔◌, inl, inr, Bool, true, false, List, [], ◌∷◌, Option, none,
  some, arith, if◌then◌else◌, length, Option-cases,
}
use vs_slns.BridgeConfig.{
  Named, found_right, all_found_right, found_back, all_found_back, items_same,
}

module _ {Name Data : Type 0} (str_same : Name → Name → Bool) where
  -- The settings under a name, of its first item.
  abbrev pub find : Name → List (Named Name Data) → Option Data
  find n [] = none
  find n (x ∷ xs) = if str_same n x.name then some x.value else find n xs

  abbrev pub without : Name → List (Named Name Data) → List (Named Name Data)
  without n [] = []
  without n (x ∷ xs) = if str_same n x.name then xs else x ∷ without n xs

  -- Every item's name is its own.
  abbrev pub Distinct : List (Named Name Data) → Type 0
  Distinct [] = Unit
  Distinct (x ∷ xs) = (find x.name xs ≡ none) × Distinct xs

module _ {Name Data : Type 0} (str_same : Name → Name → Bool) (mem_same : Data → Data → Bool)
    (str_iff : (a b : Name) → (str_same a b ≡ true) ↔ (a ≡ b))
    (mem_iff : (a b : Data) → (mem_same a b ≡ true) ↔ (a ≡ b)) where
  abbrev verdict : Data → Option Data → Bool
  verdict v none = false
  verdict v (some d) = mem_same v d

  found_right-verdict :
      (l : Named Name Data) (rs : List (Named Name Data))
      → found_right str_same mem_same l rs ≡ verdict l.value (find str_same l.name rs)
  found_right-verdict l [] = refl
  found_right-verdict l (r ∷ rs) = ground (arith, found_right-verdict l rs)

  found_right-find :
      (l : Named Name Data) (rs : List (Named Name Data))
      → found_right str_same mem_same l rs ≡ true
      → find str_same l.name rs ≡ some l.value
  found_right-find l [] e = cc
  found_right-find l (r ∷ rs) e = ground (arith, found_right-find l rs, mem_iff l.value r.value)

  length-without :
      (n : Name) (d : Data) (xs : List (Named Name Data))
      → find str_same n xs ≡ some d
      → length xs ≡ suc (length (without str_same n xs))
  length-without n d [] e = cc
  length-without n d (x ∷ xs) e = ground (arith, length-without n d xs)

  find-without :
      (n m : Name) (xs : List (Named Name Data))
      → n ≢ m
      → find str_same n (without str_same m xs) ≡ find str_same n xs
  find-without n m [] ne = refl
  find-without n m (x ∷ xs) ne =
      ground (arith, find-without n m xs ne, str_iff m x.name, str_iff n x.name)

  all_found-without :
      (m : Name) (ls rs : List (Named Name Data))
      → find str_same m ls ≡ none
      → all_found_right str_same mem_same ls rs ≡ true
      → all_found_right str_same mem_same ls (without str_same m rs) ≡ true
  all_found-without m [] rs e f = refl
  all_found-without m (l ∷ ls) rs e f = ground (
    arith,
    all_found-without m ls rs,
    found_right-verdict l rs,
    found_right-verdict l (without str_same m rs),
    find-without l.name m rs,
    str_iff m l.name,
  )

  -- What is found from left to right is there: with the same settings.
  pub all_found_find :
      (n : Name) (d : Data) (ls rs : List (Named Name Data))
      → all_found_right str_same mem_same ls rs ≡ true
      → find str_same n ls ≡ some d
      → find str_same n rs ≡ some d
  all_found_find n d [] rs f e = cc
  all_found_find n d (l ∷ ls) rs f e =
      ground (arith, all_found_find n d ls rs, found_right-find l rs, str_iff n l.name)

  -- Nothing else is there, if the right list is no longer and the left list's names are distinct.
  pub all_found_back_find :
      (n : Name) (d : Data) (ls rs : List (Named Name Data))
      → Distinct str_same ls
      → all_found_right str_same mem_same ls rs ≡ true
      → length rs ≤ length ls
      → find str_same n rs ≡ some d
      → find str_same n ls ≡ some d
  all_found_back_find n d [] [] v f k e = e
  all_found_back_find n d [] (r ∷ rs) v f k e = absurd (omega arith)
  all_found_back_find n d (l ∷ ls) rs v f k e =
      let ih =
        all_found_back_find n d ls (without str_same l.name rs) v.1
          (all_found-without l.name ls rs v.0 (ground arith))
          (omega (arith, length-without l.name l.value rs here)) in
      ground (arith, ih, find-without n l.name rs, here, str_iff n l.name)
    where
      here : find str_same l.name rs ≡ some l.value
      here = found_right-find l rs (ground arith)

  pub all_found_maps :
      (ls rs : List (Named Name Data))
      → Distinct str_same ls
      → all_found_right str_same mem_same ls rs ≡ true
      → length rs ≤ length ls
      → (n : Name) → find str_same n ls ≡ find str_same n rs
  all_found_maps ls rs v f k n = elim (Option-cases (find str_same n ls)) [
    | inr (d, e) ↦ e ∙ sym (all_found_find n d ls rs f e)
    | inl e ↦ elim (Option-cases (find str_same n rs)) [ inl g ↦ e ∙ sym g | inr (d, g) ↦ g' d g ]
  ]
    where
      g' : (d : Data) → find str_same n rs ≡ some d → find str_same n ls ≡ find str_same n rs
      g' d g = all_found_back_find n d ls rs v f k g ∙ sym g

  -- A list with distinct names is found in itself.
  all_found_refl :
      (pre xs : List (Named Name Data))
      → ((n : Name) (d : Data) → find str_same n xs ≡ some d → find str_same n pre ≡ some d)
      → Distinct str_same xs
      → all_found_right str_same mem_same xs pre ≡ true
  all_found_refl pre [] h v = refl
  all_found_refl pre (x ∷ xs) h v =
      let rest =
        all_found_refl pre xs (λ n d e. h n d (ground (arith, str_iff n x.name, e, v.0))) v.1 in
      ground (
        arith,
        rest,
        found_right-verdict x pre,
        h x.name x.value,
        str_iff x.name x.name,
        mem_iff x.value x.value,
      )

  found_back_self :
      (x : Named Name Data) (xs : List (Named Name Data))
      → found_back str_same mem_same x x xs xs ≡ found_right str_same mem_same x xs
  found_back_self x [] = refl
  found_back_self x (y ∷ ys) =
      ground (arith, found_back_self x ys, str_iff x.name y.name, str_iff y.name x.name)

  all_found_back_self :
      (ls xs : List (Named Name Data))
      → all_found_back str_same mem_same ls ls xs xs ≡ all_found_right str_same mem_same ls xs
  all_found_back_self [] xs = refl
  all_found_back_self (l ∷ ls) xs = ground (arith, found_back_self l xs, all_found_back_self ls xs)

  -- Both loops accept a list with distinct names against itself.
  pub items_same_self :
      (xs : List (Named Name Data))
      → Distinct str_same xs
      → items_same str_same mem_same xs xs ≡ true
  unfolding items_same
  items_same_self xs v =
      let right = all_found_refl xs xs (λ n d e. e) v in
      ground (arith, right, all_found_back_self xs xs)

  pub items_same_maps :
      (ls rs : List (Named Name Data))
      → Distinct str_same ls
      → length ls ≡ length rs
      → items_same str_same mem_same ls rs ≡ true
      → (n : Name) → find str_same n ls ≡ find str_same n rs
  unfolding items_same
  items_same_maps ls rs v k e = all_found_maps ls rs v (ground arith) (omega arith)

  -- Three items moved by one place: the way back refuses them unless two settings agree.
  pub items_same_rotated :
      (a b c : Named Name Data)
      → a.name ≢ b.name
      → a.name ≢ c.name
      → b.value ≢ c.value
      → items_same str_same mem_same (a ∷ b ∷ c ∷ []) (b ∷ c ∷ a ∷ []) ≡ false
  unfolding items_same
  items_same_rotated a b c ab ac bc = ground (
    arith,
    str_iff b.name a.name,
    str_iff c.name a.name,
    str_iff a.name a.name,
    mem_iff b.value c.value,
  )

  pub find_rotated :
      (a b c : Named Name Data) (n : Name)
      → a.name ≢ b.name
      → a.name ≢ c.name
      → find str_same n (a ∷ b ∷ c ∷ []) ≡ find str_same n (b ∷ c ∷ a ∷ [])
  find_rotated a b c n ab ac = ground (arith, str_iff n a.name, str_iff n b.name, str_iff n c.name)
