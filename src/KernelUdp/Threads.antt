-- ===== src/KernelUdp/Threads.antt =====
-- What each of the three threads does with the datagrams of a socket: _2_krnl_udp_counter.c counts them,
-- _6_one2one_krnl2krnl_SF.c and _7_many2many_krnl2krnl_SF.c put each one behind a time and publish it.
use vs_slns.Base.{
  ℕ, ◌+◌, ◌-◌, Bool, List, [], ◌∷◌, ◌++◌, none, some, ◌==◌, ltb, if◌then◌else◌, length, replicate,
  Outcome, returns, blocks, undefined, ◌>>=◌,
}
use vs_slns.Forward.{Tm, field_size, overlay, take, stamp}
use vs_slns.KernelUdp.{
  Udp, Received, eagain, ewouldblock, other_error, datagram, Stat, receive_error, received, got,
  Activity, Thread, proc_krnl_udp,
}

-- `recvfrom` until the socket is empty.
unfoldable pub count_until_empty : List Received → Stat → Stat
count_until_empty [] s = s
count_until_empty (eagain ∷ rs) s = s
count_until_empty (ewouldblock ∷ rs) s = s
count_until_empty (other_error ∷ rs) s = receive_error s
count_until_empty (datagram bytes now accepted ∷ rs) s =
    let n = length bytes in
    let rest = count_until_empty rs (if n == 0 then receive_error s else got n now (received s)) in
    rest

abbrev pub count_datagrams : List Received → Stat → Unit {0} → Stat × Unit {0}
count_datagrams rs s u = (count_until_empty rs s, u)

unfoldable pub proc_krnl_udp_counter :
    Bool → List Udp → List Activity → Stat → Thread (Unit {0}) × Bool
proc_krnl_udp_counter stopped us acts s = proc_krnl_udp count_datagrams stopped us acts s tt

-- `BUFFER_SIZE`, and the place of the payload in the buffer.
pub record Sizes : Type 0 where
  pub buffer_size : ℕ
  pub main_load_offset : ℕ

-- A datagram as it is handed to the distributor.
pub record Message : Type 0 where
  pub tcp_name : List ℕ
  pub payload_sz : ℕ
  pub timestamp_field : List ℕ
  pub payload : List ℕ

-- The buffer: the connection's name and the time's field in the header, and the bytes from
-- `main_load_offset` on; with it, what was published so far.
pub record Cup : Type 0 where
  pub tcp_name : List ℕ
  pub timestamp_field : List ℕ
  pub load : List ℕ
  pub published : List Message

-- `gmtime_r` of 0: nothing is assigned to `udp_hdr.tm`, and the buffer is all 0 at first.
abbrev pub epoch : Tm
epoch = record { year = 1970; mon = 1; mday = 1; hour = 0; min = 0; sec = 0 }

-- `recvfrom` takes up to `BUFFER_SIZE` bytes, to a place inside a buffer of that size.
unfoldable pub receive : Sizes → List ℕ → Cup → Outcome Cup
receive sz bytes c =
    if ltb sz.buffer_size (sz.main_load_offset + length bytes)
    then undefined
    else returns (record c { load = overlay bytes c.load })

-- The header, and the publishing of `n` bytes of payload.
unfoldable pub publish_one : ℕ → Cup → Outcome Cup
unfolding stamp
publish_one n c = elim (stamp epoch 0 c.timestamp_field c.load) [
  | none ↦ blocks
  | some (field, load) ↦
      let m : Message = record {
        tcp_name = [];
        payload_sz = n + field_size;
        timestamp_field = field;
        payload = take n load;
      } in
      returns (record {
        tcp_name = [];
        timestamp_field = field;
        load = load;
        published = c.published ++ (m ∷ []);
      })
]

-- `recvfrom` until the socket is empty.
unfoldable pub store_until_empty : Sizes → List Received → Stat → Outcome Cup → Stat × Outcome Cup
unfolding receive publish_one
store_until_empty sz [] s c = (s, c)
store_until_empty sz (eagain ∷ rs) s c = (s, c)
store_until_empty sz (ewouldblock ∷ rs) s c = store_until_empty sz rs s c
store_until_empty sz (other_error ∷ rs) s c = (receive_error s, c)
store_until_empty sz (datagram sent now accepted ∷ rs) s c =
    let bytes = take sz.buffer_size sent in
    let n = length bytes in
    let stat =
      if n == 0 then receive_error s else if accepted then got n now (received s) else received s in
    let cup = if n == 0 then c else (c >>= receive sz bytes >>= publish_one n) in
    store_until_empty sz rs stat cup

abbrev pub new_cup : Sizes → List ℕ → Cup
new_cup sz name = record {
  tcp_name = name;
  timestamp_field = replicate field_size 0;
  load = replicate (sz.buffer_size - sz.main_load_offset) 0;
  published = [];
}

-- One connection, whose name is written once.
unfoldable pub proc_one2one_krnl_udp_store :
    Sizes → List ℕ → Bool → List Udp → List Activity → Stat → Thread (Outcome Cup) × Bool
proc_one2one_krnl_udp_store sz name stopped us acts s =
    proc_krnl_udp (store_until_empty sz) stopped us acts s (returns (new_cup sz name))

-- Many connections: the subscribers write the name.
unfoldable pub proc_many2many_krnl_udp_store :
    Sizes → Bool → List Udp → List Activity → Stat → Thread (Outcome Cup) × Bool
proc_many2many_krnl_udp_store sz stopped us acts s =
    proc_krnl_udp (store_until_empty sz) stopped us acts s (returns (new_cup sz []))
