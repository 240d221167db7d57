-- ===== src/Capture.antt =====
-- A capture thread and the end of it: stablish_pcap_udp_connection of
-- Protocol_Bridge/src/async_pcap_udp_store.c, and quit_interrupt_dist_one2one_pcap2krnl_SF of
-- _3_one2one_pcap2krnl_SF.c, which share the handle of the capture without a lock.
pub mod Promises
pub mod Early
mod Tests
use vs_slns.Base.{ℕ, ◌+◌, ◌≤◌, ◌<◌, ◌≡◌, ◌≢◌, Bool, true, false, suc}

-- `*shrtcut->pcp_handle`: null, an open capture, or one that `pcap_close` has freed.
pub data Handle : Type 0 where
  null live freed : Handle

-- stablish_pcap_udp_connection: before `pcap_open_live`, between that and `pcap_loop`, in the loop,
-- before `pcap_close`, before the handle is set to null, and after it.
pub data Capturer : Type 0 where
  before_open preparing looping before_close before_null finished : Capturer

-- quit_interrupt_dist_one2one_pcap2krnl_SF: the test of its loop, the call in it, the sleep, and the
-- test and the calls behind the loop, which use the handle in one step.
pub data Quitter : Type 0 where
  not_called at_test about_to_break sleeping after_loop about_to_break_last returned : Quitter

-- `broken` tells that the capture was told to leave its loop, `misused` that it was told so through a
-- handle that is freed or null.
pub record Session : Type 0 where
  pub handle : Handle
  pub capturer : Capturer
  pub quitter : Quitter
  pub break_cuit : ℕ
  pub broken : Bool
  pub misused : Bool
  pub receive_stoped : Bool

-- One access of one of the two. `guard` is `INFINITE_LOOP_GUARD()`. `pcap_loop` may end by itself, with
-- an error.
pub data Move (guard : ℕ) (s : Session) : Session → Type 0 where
  opens : s.capturer ≡ before_open → Move guard s (record s { capturer = preparing; handle = live })
  open_fails : s.capturer ≡ before_open → Move guard s (record s { capturer = before_null })
  prepared : s.capturer ≡ preparing → Move guard s (record s { capturer = looping })
  set_up_fails : s.capturer ≡ preparing → Move guard s (record s { capturer = before_close })
  loop_ends : s.capturer ≡ looping → Move guard s (record s { capturer = before_close })
  closes :
      s.capturer ≡ before_close → Move guard s (record s { capturer = before_null; handle = freed })
  clears :
      s.capturer ≡ before_null
      → Move guard s (record s { capturer = finished; handle = null; receive_stoped = true })
  quit : s.quitter ≡ not_called → Move guard s (record s { quitter = at_test })
  sees_handle :
      s.quitter ≡ at_test
      → s.handle ≢ null
      → s.break_cuit < guard
      → Move guard s (record s { quitter = about_to_break })
  sees_null :
      s.quitter ≡ at_test → s.handle ≡ null → Move guard s (record s { quitter = after_loop })
  gives_up :
      s.quitter ≡ at_test → guard ≤ s.break_cuit → Move guard s (record s { quitter = after_loop })
  breaks :
      s.quitter ≡ about_to_break
      → s.handle ≡ live
      → Move guard s (record s { quitter = sleeping; broken = true })
  breaks_dead :
      s.quitter ≡ about_to_break
      → s.handle ≢ live
      → Move guard s (record s { quitter = sleeping; misused = true })
  sleeps :
      s.quitter ≡ sleeping
      → Move guard s (record s { quitter = at_test; break_cuit = suc s.break_cuit })
  still_there :
      s.quitter ≡ after_loop
      → s.handle ≢ null
      → Move guard s (record s { quitter = about_to_break_last })
  gone : s.quitter ≡ after_loop → s.handle ≡ null → Move guard s (record s { quitter = returned })
  breaks_last :
      s.quitter ≡ about_to_break_last
      → s.handle ≡ live
      → Move guard s (record s { quitter = returned; broken = true })
  breaks_last_dead :
      s.quitter ≡ about_to_break_last
      → s.handle ≢ live
      → Move guard s (record s { quitter = returned; misused = true })

abbrev pub new_session : Session
new_session = record {
  handle = null;
  capturer = before_open;
  quitter = not_called;
  break_cuit = 0;
  broken = false;
  misused = false;
  receive_stoped = false;
}

-- Either may be next.
pub data Reaches (guard : ℕ) (s : Session) : Session → Type 0 where
  here : Reaches guard s s
  later : {t u : Session} → Reaches guard s t → Move guard t u → Reaches guard s u

-- What every move keeps, every run keeps.
pub Reaches-keeps :
    (guard : ℕ) (P : Session → Type 0)
    → ((s t : Session) → Move guard s t → P s → P t)
    → (s t : Session) → Reaches guard s t
    → P s
    → P t
Reaches-keeps guard P kept s _ here p = p
Reaches-keeps guard P kept s _ (later {t} {u} r m) p =
    kept t u m (Reaches-keeps guard P kept s t r p)
