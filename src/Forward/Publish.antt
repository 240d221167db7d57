-- ===== src/Forward/Publish.antt =====
-- many_tcp_out_thread_proc's inner loop: the datagrams as the defragmentator returns them, stamped
-- in one buffer and handed to the distributor.
use vs_slns.Base.{
  ℕ, Bool, List, [], ◌∷◌, ◌++◌, Option, none, some, if◌then◌else◌, length, Status, is_ok,
}
use vs_slns.Forward.{Tm, overlay, take, stamp}

-- One datagram: its bytes, `gmtime_r` and the microseconds of its time, `stop_sending` as it is read
-- after the call that returned it, and the distributor's answer to it.
pub record Popped : Type 0 where
  pub datagram : List ℕ
  pub tm : Tm
  pub tv_usec : ℕ
  pub stops : Bool
  pub answer : Status

-- The two parts of `bufferr` that change, `continuously_unsuccessful_send_error`, and what was
-- handed to the distributor.
pub record Out : Type 0 where
  pub field : List ℕ
  pub body : List ℕ
  pub send_errors : ℕ
  pub published : List (List ℕ)

-- What is published ends where the datagram does.
unfoldable pub publish : Popped → Out → Option Out
publish p o = elim (stamp p.tm p.tv_usec o.field (overlay p.datagram o.body)) [
  | none ↦ none
  | some (f, b) ↦ some (record {
    field = f;
    body = b;
    send_errors = if is_ok p.answer then 0 else o.send_errors;
    published = o.published ++ ((f ++ take (length p.datagram) b) ∷ []);
  })
]

-- The loop, until the defragmentator returns no datagram or the sending is stopped.
unfoldable pub forward : List Popped → Out → Option Out
forward [] o = some o
forward (p ∷ ps) o =
    if p.stops
    then some (record o { body = overlay p.datagram o.body })
    else elim (publish p o) [ none ↦ none | some next ↦ forward ps next ]
