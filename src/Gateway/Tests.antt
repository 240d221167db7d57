-- ===== src/Gateway/Tests.antt =====
-- Runs of the three threads, and the theorems at them.
use vs_slns.Base.{◌<◌, ◌≡◌, ◌≢◌, ◌⊎◌, inr, refl, arith}
use vs_slns.PersistCache.{gws_die, gws_close, gws_open}
use vs_slns.Gateway.{
  here, Run, ◌▷◌, start, pops_nothing, sees_closed, opens, goes_to_wait, quit_3, waits, goes_back,
  goes_to_end, dies, call_stop, reads_active, writes, still_active, stops, before_post, ended,
  posts_again,
}
use vs_slns.Gateway.Promises.{open-woken, stopped-ended}

abbrev opened : Run
opened =
    record { last = start; runs = here }
    ▷ goes_to_wait refl refl
    ▷ pops_nothing refl refl
    ▷ sees_closed refl refl
    ▷ opens refl

open-woken_example :
    (0 < opened.last.pagestack_gateway_open_sem) ⊎ (opened.last.sender ≡ before_post)
open-woken_example = open-woken opened.last opened.runs refl (inr refl)

close_alive : gws_close ≢ gws_die
close_alive = ground arith

close_not_open : gws_close ≢ gws_open
close_not_open = ground arith

-- The thread in `sem_wait` is woken by the function that waits for it, and ends.
abbrev stopping : Run
stopping =
    record { last = start; runs = here }
    ▷ goes_to_wait refl refl
    ▷ quit_3
    ▷ call_stop refl
    ▷ reads_active refl close_alive
    ▷ writes gws_close refl
    ▷ still_active refl close_alive
    ▷ posts_again refl
    ▷ waits 0 refl refl
    ▷ goes_back refl close_not_open
    ▷ goes_to_end refl refl
    ▷ dies refl
    ▷ stops refl refl

stopped-ended_example : stopping.last.cache ≡ ended
stopped-ended_example = stopped-ended stopping.last stopping.runs refl
