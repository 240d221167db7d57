-- ===== src/Forward/Tests.antt =====
-- Runs of the stamping, and its theorems at them.
use vs_slns.Base.{
  ℕ, ◌≡◌, refl, List, [], ◌∷◌, ◌++◌, some, length, replicate, arith, map, true, false, Status,
}
use vs_slns.Forward.{Tm, digits, timestamp, field_size, fill_spaces, stamp}
use vs_slns.Forward.Publish.{Popped, Out, forward}
use vs_slns.Forward.Messages.{message, before_stop, Fits, Ready, forward-publishes}
use vs_slns.Forward.Payload.{Printable, count, stamp-keeps_braces}

abbrev noon : Tm
noon = record { year = 2025; mon = 9; mday = 13; hour = 12; min = 0; sec = 5 }

-- `{"a":1}`
abbrev datagram : List ℕ
datagram = b'{' ∷ b'"' ∷ b'a' ∷ b'"' ∷ b':' ∷ b'1' ∷ b'}' ∷ []

noon-Printable : Printable noon
unfolding Printable
noon-Printable = (omega arith, omega arith, omega arith, omega arith, omega arith, omega arith)

stamp-keeps_braces_example :
    (field opened : List ℕ) × (stamp noon 7500
        (replicate 45 b' ' ++ replicate 3 b' ')
        (datagram ++ (b'{' ∷ []))
      ≡ some (field, opened ++ (b'{' ∷ [])))
    × (length field ≡ field_size)
    × (length opened ≡ length datagram)
    × (count b'{' (field ++ opened) ≡ count b'{' datagram)
    × (count b'}' (field ++ opened) ≡ count b'}' datagram)
stamp-keeps_braces_example =
    stamp-keeps_braces noon 7500 0 (replicate 45 b' ') datagram (b'{' ∷ []) noon-Printable
      (omega arith) refl refl

abbrev one_object : Popped
one_object = record {
  datagram = datagram;
  tm = noon;
  tv_usec = 7500;
  stops = false;
  answer = Status.err_ok;
}

-- Shorter than the one before it, which lies behind it in the buffer.
abbrev no_object : Popped
no_object = record {
  datagram = b'x' ∷ [];
  tm = noon;
  tv_usec = 8500;
  stops = false;
  answer = Status.err_general;
}

abbrev stopped : Popped
stopped = record {
  datagram = datagram;
  tm = noon;
  tv_usec = 9500;
  stops = true;
  answer = Status.err_ok;
}

abbrev fresh : Out
fresh = record { field = replicate 48 b' '; body = replicate 8 0; send_errors = 5; published = [] }

fresh-Ready : Ready fresh
unfolding Ready
fresh-Ready = (replicate 45 b' ', refl, refl)

run-Fits : Fits 8 (one_object ∷ no_object ∷ stopped ∷ one_object ∷ [])
unfolding Fits
run-Fits = (
  noon-Printable,
  omega arith,
  omega arith,
  (
    noon-Printable,
    omega arith,
    omega arith,
    (noon-Printable, omega arith, omega arith, (noon-Printable, omega arith, omega arith, tt)),
  ),
)

forward-publishes_example :
    (next : Out) × (forward (one_object ∷ no_object ∷ stopped ∷ one_object ∷ []) fresh ≡ some next)
    × (next.published
        ≡ [] ++ map message (before_stop (one_object ∷ no_object ∷ stopped ∷ one_object ∷ [])))
    × Ready next
forward-publishes_example =
    forward-publishes (one_object ∷ no_object ∷ stopped ∷ one_object ∷ []) fresh run-Fits
      fresh-Ready

two_before_stop :
    before_stop (one_object ∷ no_object ∷ stopped ∷ one_object ∷ []) ≡ one_object ∷ no_object ∷ []
two_before_stop = refl

-- `{ "@timestamp": "2025-09-13T12:00:05.007Z", ` and four spaces.
year_of_noon :
    stamp noon 7500 (replicate 48 b' ') (b'{' ∷ b'}' ∷ [])
    ≡ some (
      b'{' ∷ b' ' ∷ b'"' ∷ b'@' ∷ b't' ∷ b'i' ∷ b'm' ∷ b'e' ∷ b's' ∷ b't' ∷ b'a' ∷ b'm' ∷ b'p'
          ∷ b'"' ∷ b':' ∷ b' ' ∷ b'"' ∷ b'2' ∷ b'0' ∷ b'2' ∷ b'5' ∷ b'-' ∷ b'0' ∷ b'9' ∷ b'-' ∷ b'1'
          ∷ b'3' ∷ b'T' ∷ b'1' ∷ b'2' ∷ b':' ∷ b'0' ∷ b'0' ∷ b':' ∷ b'0' ∷ b'5' ∷ b'.' ∷ b'0' ∷ b'0'
          ∷ b'7' ∷ b'Z' ∷ b'"' ∷ b',' ∷ b' ' ∷ b' ' ∷ b' ' ∷ b' ' ∷ b' ' ∷ [],
      b' ' ∷ b'}' ∷ [],
    )
unfolding stamp timestamp fill_spaces digits
year_of_noon = refl
