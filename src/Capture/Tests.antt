-- ===== src/Capture/Tests.antt =====
-- Runs of the two, and the theorems at them.
use vs_slns.Base.{◌≡◌, ◌≢◌, ◌⊎◌, refl, true, false, arith}
use vs_slns.Capture.{
  Session, Reaches, here, later, new_session, null, live, freed, looping, before_null, finished,
  opens, prepared, loop_ends, closes, quit, sees_handle, breaks_dead,
}
use vs_slns.Capture.Promises.{misused-closed}
use vs_slns.Capture.Early.{early_quit_ignored}

live_not_null : live ≢ null
live_not_null = λ e. ground arith

freed_not_live : freed ≢ live
freed_not_live = λ e. ground arith

-- The handle is found, the capture is closed, and the call is made with the freed handle.
abbrev misuse : (s : Session) × Reaches 10 new_session s
misuse = (
  _,
  later
      (later
        (later
          (later (later (later (later here (opens refl)) (prepared refl)) (quit refl))
            (sees_handle refl live_not_null (omega arith)))
          (loop_ends refl))
        (closes refl))
      (breaks_dead refl freed_not_live),
)

misuse_happens : misuse.0.misused ≡ true
misuse_happens = refl

misused-closed_example :
    (misuse.0.misused ≡ true → (misuse.0.capturer ≡ before_null) ⊎ (misuse.0.capturer ≡ finished))
    × (misuse.0.capturer ≡ finished → (misuse.0.handle ≡ null) × (misuse.0.receive_stoped ≡ true))
misused-closed_example = misused-closed 10 misuse.0 misuse.1

early_quit_ignored_example :
    (s : Session) × Reaches 10 new_session s
    × (s.capturer ≡ looping)
    × ((t : Session) → Reaches 10 s t → t.broken ≡ false)
early_quit_ignored_example = early_quit_ignored 10
