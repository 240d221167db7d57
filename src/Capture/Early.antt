-- ===== src/Capture/Early.antt =====
-- The command to end comes before the capture is opened.
use vs_slns.Base.{ℕ, ◌≡◌, refl, false, arith}
use vs_slns.Capture.{
  Session, Move, Reaches, here, later, Reaches-keeps, new_session, looping, returned, opens,
  open_fails, prepared, set_up_fails, loop_ends, closes, clears, quit, sees_handle, sees_null,
  gives_up, breaks, breaks_dead, sleeps, still_there, gone, breaks_last, breaks_last_dead,
}

-- The function has returned, and told the capture nothing.
abbrev Untold : Session → Type 0
Untold s = (s.quitter ≡ returned) × (s.broken ≡ false)

Move-Untold : (guard : ℕ) (s t : Session) → Move guard s t → Untold s → Untold t
Move-Untold guard s _ (opens e) i = ground (arith, i)
Move-Untold guard s _ (open_fails e) i = ground (arith, i)
Move-Untold guard s _ (prepared e) i = ground (arith, i)
Move-Untold guard s _ (set_up_fails e) i = ground (arith, i)
Move-Untold guard s _ (loop_ends e) i = ground (arith, i)
Move-Untold guard s _ (closes e) i = ground (arith, i)
Move-Untold guard s _ (clears e) i = ground (arith, i)
Move-Untold guard s _ (quit e) i = ground (arith, i)
Move-Untold guard s _ (sees_handle e f g) i = ground (arith, i)
Move-Untold guard s _ (sees_null e f) i = ground (arith, i)
Move-Untold guard s _ (gives_up e f) i = ground (arith, i)
Move-Untold guard s _ (breaks e f) i = ground (arith, i)
Move-Untold guard s _ (breaks_dead e f) i = ground (arith, i)
Move-Untold guard s _ (sleeps e) i = ground (arith, i)
Move-Untold guard s _ (still_there e f) i = ground (arith, i)
Move-Untold guard s _ (gone e f) i = ground (arith, i)
Move-Untold guard s _ (breaks_last e f) i = ground (arith, i)
Move-Untold guard s _ (breaks_last_dead e f) i = ground (arith, i)

-- If quit_interrupt_dist_one2one_pcap2krnl_SF is called before the capture is opened, it returns at once,
-- and the capture is opened and loops all the same: no later step of the two tells it to end.
pub early_quit_ignored :
    (guard : ℕ)
    → (s : Session) × Reaches guard new_session s
      × (s.capturer ≡ looping)
      × ((t : Session) → Reaches guard s t → t.broken ≡ false)
early_quit_ignored guard =
    let returned_first =
      later (later (later here (quit refl)) (sees_null refl refl)) (gone refl refl) in
    (
      _,
      later (later returned_first (opens refl)) (prepared refl),
      refl,
      λ t r. (Reaches-keeps guard Untold (Move-Untold guard) _ t r (refl, refl)).1,
    )
