-- ===== src/Capture/Promises.antt =====
-- What the two may rely on, after any run.
use vs_slns.Base.{ℕ, ◌≡◌, ◌≢◌, ◌⊎◌, true, arith}
use vs_slns.Capture.{
  Session, Move, Reaches, Reaches-keeps, new_session, null, live, freed, preparing, looping,
  before_close, before_null, finished, about_to_break, about_to_break_last, opens, open_fails,
  prepared, set_up_fails, loop_ends, closes, clears, quit, sees_handle, sees_null, gives_up, breaks,
  breaks_dead, sleeps, still_there, gone, breaks_last, breaks_last_dead,
}

-- Where the capture stands by its handle, what the other one saw of the handle, and when a handle was
-- misused.
abbrev Inv : Session → Type 0
Inv s =
    (s.handle ≡ live
      → ((s.capturer ≡ preparing) ⊎ (s.capturer ≡ looping)) ⊎ (s.capturer ≡ before_close))
    × (s.handle ≡ freed → s.capturer ≡ before_null)
    × (s.capturer ≡ before_close → s.handle ≡ live)
    × ((s.quitter ≡ about_to_break) ⊎ (s.quitter ≡ about_to_break_last)
        → (s.handle ≢ null) ⊎ (s.capturer ≡ finished))
    × (s.misused ≡ true → (s.capturer ≡ before_null) ⊎ (s.capturer ≡ finished))
    × (s.capturer ≡ finished → (s.handle ≡ null) × (s.receive_stoped ≡ true))
    × (s.capturer ≡ preparing → s.handle ≡ live)
    × (s.capturer ≡ looping → s.handle ≡ live)

new_session-Inv : Inv new_session
new_session-Inv = ground arith

Move-Inv : (guard : ℕ) (s t : Session) → Move guard s t → Inv s → Inv t
Move-Inv guard s _ (opens e) i = ground (arith, i)
Move-Inv guard s _ (open_fails e) i = ground (arith, i)
Move-Inv guard s _ (prepared e) i = ground (arith, i)
Move-Inv guard s _ (set_up_fails e) i = ground (arith, i)
Move-Inv guard s _ (loop_ends e) i = ground (arith, i)
Move-Inv guard s _ (closes e) i = ground (arith, i)
Move-Inv guard s _ (clears e) i = ground (arith, i)
Move-Inv guard s _ (quit e) i = ground (arith, i)
Move-Inv guard s _ (sees_handle e f g) i = ground (arith, i)
Move-Inv guard s _ (sees_null e f) i = ground (arith, i)
Move-Inv guard s _ (gives_up e f) i = ground (arith, i)
Move-Inv guard s _ (breaks e f) i = ground (arith, i)
Move-Inv guard s _ (breaks_dead e f) i = ground (arith, i)
Move-Inv guard s _ (sleeps e) i = ground (arith, i)
Move-Inv guard s _ (still_there e f) i = ground (arith, i)
Move-Inv guard s _ (gone e f) i = ground (arith, i)
Move-Inv guard s _ (breaks_last e f) i = ground (arith, i)
Move-Inv guard s _ (breaks_last_dead e f) i = ground (arith, i)

-- In every interleaving, pcap_breakloop is called with a handle that is freed or null only after
-- pcap_close; before that, every such call reaches an open capture. A thread that is done has cleared
-- its handle and says so.
pub misused-closed :
    (guard : ℕ) (s : Session)
    → Reaches guard new_session s
    → (s.misused ≡ true → (s.capturer ≡ before_null) ⊎ (s.capturer ≡ finished))
      × (s.capturer ≡ finished → (s.handle ≡ null) × (s.receive_stoped ≡ true))
misused-closed guard s r =
    let i = Reaches-keeps guard Inv (Move-Inv guard) new_session s r new_session-Inv in (i.4, i.5)
