-- ===== src/Gateway.antt =====
-- The gateway between memory and disk, with the three threads that share it a shared access at a time:
-- process_filled_tcp_segment_proc of Protocol_Bridge/src/packet_mngr.c opens and closes it,
-- discharge_persistant_cache_proc of persistant_cache_mgr.c empties the files while it is open, and
-- try_stop_sending_from_cach_mgr waits for the end of the latter.
pub mod Inv
pub mod Promises
pub mod Lost
mod Tests
use vs_slns.Base.{ℕ, ◌+◌, ◌≡◌, ◌≢◌, Bool, true, false, suc}
use vs_slns.PersistCache.{GatewayOpenStat, gws_die, gws_close, gws_open}

-- process_filled_tcp_segment_proc: before the test of the loop; with a segment in hand, or without
-- one; before an assignment or the post; with the segment emptied; after the loop.
pub data Sender : Type 0 where
  at_top with_segment without_segment before_close before_open before_post emptied : Sender
  after_loop before_last_close left : Sender

-- discharge_persistant_cache_proc
pub data Cache : Type 0 where
  at_head at_wait at_while popping found_empty before_die ended : Cache

-- try_stop_sending_from_cach_mgr: what it is about to assign, and the tests of its loop.
pub data Stopper : Type 0 where
  not_called about_to_read about_to_reread at_test at_post stopped : Stopper
  about_to_write : (v : GatewayOpenStat) → Stopper

pub record Gate : Type 0 where
  pub pagestack_gateway_open_val : GatewayOpenStat
  pub pagestack_gateway_open_sem : ℕ
  pub quit_first_level_thread_3 : Bool
  pub quit_noloss_data_thread_4 : Bool
  pub sender : Sender
  pub cache : Cache
  pub stopper : Stopper

-- One access of one thread, or a command.
pub data Move (g : Gate) : Gate → Type 0 where
  quit_3 : Move g (record g { quit_first_level_thread_3 = true })
  quit_4 : Move g (record g { quit_noloss_data_thread_4 = true })
  call_stop : g.stopper ≡ not_called → Move g (record g { stopper = about_to_read })
  -- A segment was popped; without one, or when the disk is first, the files get their turn.
  pops_segment :
      g.sender ≡ at_top
      → g.quit_noloss_data_thread_4 ≡ false
      → Move g (record g { sender = with_segment })
  pops_nothing :
      g.sender ≡ at_top
      → g.quit_noloss_data_thread_4 ≡ false
      → Move g (record g { sender = without_segment })
  leaves_loop :
      g.sender ≡ at_top
      → g.quit_noloss_data_thread_4 ≡ true
      → Move g (record g { sender = after_loop })
  sees_open :
      g.sender ≡ with_segment
      → g.pagestack_gateway_open_val ≡ gws_open
      → Move g (record g { sender = before_close })
  sees_not_open :
      g.sender ≡ with_segment
      → g.pagestack_gateway_open_val ≢ gws_open
      → Move g (record g { sender = emptied })
  closes :
      g.sender ≡ before_close
      → Move g (record g { sender = emptied; pagestack_gateway_open_val = gws_close })
  next_round : g.sender ≡ emptied → Move g (record g { sender = at_top })
  -- It was the last one, and the program is about to exit.
  breaks_loop : g.sender ≡ emptied → Move g (record g { sender = after_loop })
  sees_closed :
      g.sender ≡ without_segment
      → g.pagestack_gateway_open_val ≡ gws_close
      → Move g (record g { sender = before_open })
  sees_not_closed :
      g.sender ≡ without_segment
      → g.pagestack_gateway_open_val ≢ gws_close
      → Move g (record g { sender = at_top })
  opens :
      g.sender ≡ before_open
      → Move g (record g { sender = before_post; pagestack_gateway_open_val = gws_open })
  posts :
      g.sender ≡ before_post
      → Move g (record g {
        sender = at_top;
        pagestack_gateway_open_sem = suc g.pagestack_gateway_open_sem;
      })
  ends_open :
      g.sender ≡ after_loop
      → g.pagestack_gateway_open_val ≡ gws_open
      → Move g (record g { sender = before_last_close })
  ends_not_open :
      g.sender ≡ after_loop
      → g.pagestack_gateway_open_val ≢ gws_open
      → Move g (record g { sender = left })
  ends_closing :
      g.sender ≡ before_last_close
      → Move g (record g { sender = left; pagestack_gateway_open_val = gws_close })
  goes_to_wait :
      g.cache ≡ at_head
      → g.quit_first_level_thread_3 ≡ false
      → Move g (record g { cache = at_wait })
  goes_to_end :
      g.cache ≡ at_head
      → g.quit_first_level_thread_3 ≡ true
      → Move g (record g { cache = before_die })
  waits :
      (n : ℕ)
      → g.cache ≡ at_wait
      → g.pagestack_gateway_open_sem ≡ suc n
      → Move g (record g { cache = at_while; pagestack_gateway_open_sem = n })
  enters :
      g.cache ≡ at_while
      → g.pagestack_gateway_open_val ≡ gws_open
      → Move g (record g { cache = popping })
  goes_back :
      g.cache ≡ at_while
      → g.pagestack_gateway_open_val ≢ gws_open
      → Move g (record g { cache = at_head })
  pops : g.cache ≡ popping → Move g (record g { cache = at_while })
  pops_empty : g.cache ≡ popping → Move g (record g { cache = found_empty })
  empty_closes :
      g.cache ≡ found_empty
      → Move g (record g { cache = at_while; pagestack_gateway_open_val = gws_close })
  dies :
      g.cache ≡ before_die
      → Move g (record g { cache = ended; pagestack_gateway_open_val = gws_die })
  reads_active :
      g.stopper ≡ about_to_read
      → g.pagestack_gateway_open_val ≢ gws_die
      → Move g (record g { stopper = about_to_write gws_close })
  reads_dead :
      g.stopper ≡ about_to_read
      → g.pagestack_gateway_open_val ≡ gws_die
      → Move g (record g { stopper = about_to_reread })
  rereads :
      g.stopper ≡ about_to_reread
      → Move g (record g { stopper = about_to_write g.pagestack_gateway_open_val })
  writes :
      (v : GatewayOpenStat)
      → g.stopper ≡ about_to_write v
      → Move g (record g { stopper = at_test; pagestack_gateway_open_val = v })
  still_active :
      g.stopper ≡ at_test
      → g.pagestack_gateway_open_val ≢ gws_die
      → Move g (record g { stopper = at_post })
  stops :
      g.stopper ≡ at_test
      → g.pagestack_gateway_open_val ≡ gws_die
      → Move g (record g { stopper = stopped })
  posts_again :
      g.stopper ≡ at_post
      → Move g (record g {
        stopper = at_test;
        pagestack_gateway_open_sem = suc g.pagestack_gateway_open_sem;
      })

-- What post_config_init_persistant_cache_mngr leaves, before the threads start.
abbrev pub start : Gate
start = record {
  pagestack_gateway_open_val = gws_close;
  pagestack_gateway_open_sem = 0;
  quit_first_level_thread_3 = false;
  quit_noloss_data_thread_4 = false;
  sender = at_top;
  cache = at_head;
  stopper = not_called;
}

-- Any thread may be next.
pub data Runs (g : Gate) : Gate → Type 0 where
  here : Runs g g
  later : {h k : Gate} → Runs g h → Move h k → Runs g k

-- What every move keeps, every run keeps.
pub Runs-keeps :
    (P : Gate → Type 0)
    → ((g h : Gate) → Move g h → P g → P h)
    → (g h : Gate) → Runs g h
    → P g
    → P h
Runs-keeps P kept g _ here p = p
Runs-keeps P kept g _ (later {h} {k} r m) p = kept h k m (Runs-keeps P kept g h r p)

-- A run from `start`, and one more move.
pub record Run : Type 0 where
  pub last : Gate
  pub runs : Runs start last

infixl 20 ◌▷◌
abbrev pub ◌▷◌ : (r : Run) {h : Gate} → Move r.last h → Run
◌▷◌ r m = record { last = _; runs = later r.runs m }
