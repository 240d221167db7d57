-- ===== src/Connected/Tests.antt =====
-- A run of connections, and the theorem at it.
use vs_slns.Base.{◌≡◌, refl, arith, List, [], ◌∷◌, Bool, true, false, length}
use vs_slns.Connected.{tcp_state_changed}
use vs_slns.Connected.Counts.{standing, run, Known, run-standing}

changes-Known : Known 3 (0 ∷ 2 ∷ 0 ∷ [])
unfolding Known
changes-Known = (omega arith, (omega arith, (omega arith, tt)))

run-standing_example :
    (last : List Bool) × (run
        (0 ∷ 2 ∷ 0 ∷ [])
        (standing (false ∷ true ∷ false ∷ []))
        (false ∷ true ∷ false ∷ [])
      ≡ (standing last, last))
    × (length last ≡ length (false ∷ true ∷ false ∷ []))
run-standing_example =
    run-standing (0 ∷ 2 ∷ 0 ∷ []) (false ∷ true ∷ false ∷ []) changes-Known (omega arith)

two_stand : (run (0 ∷ 2 ∷ 0 ∷ []) 1 (false ∷ true ∷ false ∷ [])).0 ≡ 2
unfolding run tcp_state_changed
two_stand = refl
