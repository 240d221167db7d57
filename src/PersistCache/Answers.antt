-- ===== src/PersistCache/Answers.antt =====
-- persistant_cache_mngr_relay_packet: the page stack hands over a packet and is told what became of it.
use vs_slns.Base.{
  ◌≡◌, refl, Bool, true, false, not, ◌&&◌, ◌||◌, if◌then◌else◌, Status, is_ok, arith,
}
use vs_slns.PersistCache.{GatewayOpenStat}

-- `pgstk_cmd`, the answers that the relay gives.
pub data PgstkCmd : Type 0 where
  pgstk_sended__stop_sending pgstk_sended__continue_sending : PgstkCmd
  pgstk_remapped__stop_sending pgstk_remapped__continue_sending : PgstkCmd
  pgstk_not_send__stop_sending pgstk_not_send__continue_sending : PgstkCmd
  pgstk_not_send__continue_sending_on_too_many_attempt : PgstkCmd
  pgstk_not_send__not_any_peer : PgstkCmd
  pgstk_not_send__stop_sending_delayed_memmap : PgstkCmd
  pgstk_not_send__continue_sending_delayed_2_uncongest_port : PgstkCmd

-- The answers of the gateway's two live states; its death has an answer of its own.
abbrev pub by_gate : GatewayOpenStat → PgstkCmd → PgstkCmd → PgstkCmd → PgstkCmd
by_gate GatewayOpenStat.gws_close closed opened dead = closed
by_gate GatewayOpenStat.gws_open closed opened dead = opened
by_gate GatewayOpenStat.gws_die closed opened dead = dead

-- The answer to the status of the publication.
abbrev pub answer : Status → GatewayOpenStat → PgstkCmd
answer Status.err_ok g =
    by_gate g PgstkCmd.pgstk_sended__stop_sending PgstkCmd.pgstk_sended__continue_sending
      PgstkCmd.pgstk_not_send__stop_sending
answer Status.err_mapped g =
    by_gate g PgstkCmd.pgstk_remapped__stop_sending PgstkCmd.pgstk_remapped__continue_sending
      PgstkCmd.pgstk_remapped__stop_sending
answer Status.err_too_many_attempt g = PgstkCmd.pgstk_not_send__continue_sending_on_too_many_attempt
answer Status.err_peer_closed g = PgstkCmd.pgstk_not_send__not_any_peer
answer Status.err_no_peer g = PgstkCmd.pgstk_not_send__not_any_peer
answer Status.err_but_continue g =
    by_gate g PgstkCmd.pgstk_not_send__stop_sending_delayed_memmap
      PgstkCmd.pgstk_not_send__continue_sending PgstkCmd.pgstk_not_send__stop_sending_delayed_memmap
answer Status.err_port_occupied g =
    PgstkCmd.pgstk_not_send__continue_sending_delayed_2_uncongest_port
answer _ g =
    by_gate g PgstkCmd.pgstk_not_send__stop_sending PgstkCmd.pgstk_not_send__continue_sending
      PgstkCmd.pgstk_not_send__stop_sending

-- `published` is the status of `distributor_publish_buffer_size`, called if sending is not blocked,
-- and `g` the gateway as it is then.
unfoldable pub persistant_cache_mngr_relay_packet : Bool → Status → GatewayOpenStat → PgstkCmd
persistant_cache_mngr_relay_packet block_sending_1 published g =
    if block_sending_1 then PgstkCmd.pgstk_not_send__stop_sending else answer published g

-- The answer tells the page stack that the packet was sent or moved.
abbrev pub drops : PgstkCmd → Bool
drops PgstkCmd.pgstk_sended__stop_sending = true
drops PgstkCmd.pgstk_sended__continue_sending = true
drops PgstkCmd.pgstk_remapped__stop_sending = true
drops PgstkCmd.pgstk_remapped__continue_sending = true
drops _ = false

abbrev pub is_mapped : Status → Bool
is_mapped Status.err_mapped = true
is_mapped _ = false

abbrev pub is_die : GatewayOpenStat → Bool
is_die GatewayOpenStat.gws_die = true
is_die _ = false

-- The stack is told that the packet is gone exactly if sending is not blocked and it was moved, or it was sent
-- and the gateway is not dead. For a packet that was sent while the
-- gateway died it is told that it was not.
pub drops-persistant_cache_mngr_relay_packet :
    (block_sending_1 : Bool) (published : Status) (g : GatewayOpenStat)
    → drops (persistant_cache_mngr_relay_packet block_sending_1 published g)
      ≡ (not block_sending_1 && (is_mapped published || (is_ok published && not (is_die g))))
unfolding persistant_cache_mngr_relay_packet
drops-persistant_cache_mngr_relay_packet true published g = refl
drops-persistant_cache_mngr_relay_packet false published g = ground arith
