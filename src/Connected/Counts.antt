-- ===== src/Connected/Counts.antt =====
-- The count against the connections that report their changes.
use vs_slns.Base.{
  ℕ, zero, suc, ◌+◌, ◌^◌, ◌≤◌, ◌<◌, ◌≡◌, refl, subst, ap, ◌∙◌, sym, Bool, true, false, not, List,
  [], ◌∷◌, length, arith, if◌then◌else◌,
}
use vs_slns.Connected.{tcp_state_changed}

-- How many connections stand.
abbrev pub standing : List Bool → ℕ
standing [] = 0
standing (c ∷ cs) = if c then standing cs + 1 else standing cs

-- The i-th connection is made or lost.
abbrev pub change : ℕ → List Bool → List Bool
change i [] = []
change zero (c ∷ cs) = not c ∷ cs
change (suc i) (c ∷ cs) = c ∷ change i cs

-- What it reports: 1 if it now stands, else 0.
abbrev pub report : ℕ → List Bool → ℕ
report i [] = 0
report zero (c ∷ cs) = if c then 0 else 1
report (suc i) (c ∷ cs) = report i cs

-- The changes one after the other, each with its callback.
unfoldable pub run : List ℕ → ℕ → List Bool → ℕ × List Bool
run [] n cs = (n, cs)
run (i ∷ is) n cs = run is (tcp_state_changed n (report i cs)) (change i cs)

-- Every change is one of a connection.
unfoldable pub Known : ℕ → List ℕ → Type 0
Known size [] = Unit
Known size (i ∷ is) = (i < size) × Known size is

length-change : (i : ℕ) (cs : List Bool) → length (change i cs) ≡ length cs
length-change i [] = refl
length-change zero (c ∷ cs) = refl
length-change (suc i) (c ∷ cs) = ap suc (length-change i cs)

standing-length : (cs : List Bool) → standing cs ≤ length cs
standing-length [] = omega arith
standing-length (c ∷ cs) = ground (arith, standing-length cs)

-- A report says how the count changes.
data Reported (n m : ℕ) : ℕ → Type 0 where
  made : m ≡ n + 1 → Reported n m 1
  lost : n ≡ m + 1 → Reported n m 0

shift : (n m r : ℕ) → Reported n m r → Reported (n + 1) (m + 1) r
shift n m _ (made e) = made (omega arith)
shift n m _ (lost e) = lost (omega arith)

reported :
    (i : ℕ) (cs : List Bool)
    → i < length cs
    → Reported (standing cs) (standing (change i cs)) (report i cs)
reported i [] h = absurd (omega arith)
reported zero (true ∷ cs) h = lost refl
reported zero (false ∷ cs) h = made refl
reported (suc i) (true ∷ cs) h =
    shift (standing cs) (standing (change i cs)) (report i cs) (reported i cs (omega arith))
reported (suc i) (false ∷ cs) h = reported i cs (omega arith)

counted : (n m r : ℕ) → Reported n m r → m < 2 ^ 64 → tcp_state_changed n r ≡ m
unfolding tcp_state_changed
counted n m _ (made e) h = omega arith
counted n m _ (lost e) h = ground arith

-- While each connection reports its changes, the count is the number of those that stand, if it was
-- before and there are fewer than 2 ^ 64.
pub run-standing :
    (is : List ℕ) (cs : List Bool)
    → Known (length cs) is
    → length cs < 2 ^ 64
    → (last : List Bool) × (run is (standing cs) cs ≡ (standing last, last))
      × (length last ≡ length cs)
unfolding run Known
run-standing [] cs k h = (cs, refl, refl)
run-standing (i ∷ is) cs (k, ks) h =
    let same = length-change i cs in
    let few = standing-length (change i cs) in
    let step : tcp_state_changed (standing cs) (report i cs) ≡ standing (change i cs) =
      counted (standing cs) (standing (change i cs)) (report i cs) (reported i cs k)
        (omega arith) in
    let (last, e, f) =
      run-standing is (change i cs) (subst (λ n. Known n is) (sym same) ks) (omega arith) in
    (last, ap (λ n. run is n (change i cs)) step ∙ e, f ∙ same)
