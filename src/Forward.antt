-- ===== src/Forward.antt =====
-- Protocol_Bridge/src/async_tcp_forward.c: each datagram is joined to a JSON object with its time
-- before it is handed to the outputs.
pub mod Field
pub mod Payload
pub mod Publish
pub mod Messages
mod Tests
use vs_slns.Base.{
  ℕ, zero, suc, ◌+◌, ◌-◌, ◌*◌, ◌/◌, ◌%◌, ◌^◌, Bool, true, false, List, [], ◌∷◌, ◌++◌, Option, none,
  some, ◌==◌, ltb, if◌then◌else◌, length, set, map,
}

-- `struct tm` as `gmtime_r` fills it: the full year, the month from 1, and so on.
pub record Tm : Type 0 where
  pub year : ℕ
  pub mon : ℕ
  pub mday : ℕ
  pub hour : ℕ
  pub min : ℕ
  pub sec : ℕ

-- The last `w` decimal digits of a number.
unfoldable pub digits : ℕ → ℕ → List ℕ
digits zero n = []
digits (suc w) n = digits w (n / 10) ++ ((b'0' + n % 10) ∷ [])

-- `%0wd`: at least `w` digits, and more while the number has more.
abbrev pub printed_from : ℕ → ℕ → ℕ → List ℕ
printed_from zero w n = digits w n
printed_from (suc fuel) w n = if ltb n (10 ^ w) then digits w n else printed_from fuel (w + 1) n

-- An `int` has at most ten digits.
abbrev pub printed : ℕ → ℕ → List ℕ
printed w n = printed_from 10 w n

-- `"{ \"@timestamp\": \"%04d-%02d-%02dT%02d:%02d:%02d.%03dZ\", "`, each number as it is printed.
abbrev pub format : (year mon mday hour min sec millis : List ℕ) → List ℕ
format year mon mday hour min sec millis =
    (b'{' ∷ b' ' ∷ b'"' ∷ b'@' ∷ b't' ∷ b'i' ∷ b'm' ∷ b'e' ∷ b's' ∷ b't' ∷ b'a' ∷ b'm' ∷ b'p' ∷ b'"'
      ∷ b':' ∷ b' ' ∷ b'"' ∷ [])
    ++ (year
        ++ (b'-'
            ∷ (mon
                ++ (b'-'
                    ∷ (mday
                        ++ (b'T'
                            ∷ (hour
                                ++ (b':'
                                    ∷ (min
                                        ++ (b':'
                                            ∷ (sec
                                                ++ (b'.'
                                                    ∷ (millis
                                                        ++ (b'Z' ∷ b'"' ∷ b',' ∷ b' '
                                                            ∷ []))))))))))))))

unfoldable pub timestamp : Tm → ℕ → List ℕ
timestamp tm millis =
    format (printed 4 tm.year) (printed 2 tm.mon) (printed 2 tm.mday) (printed 2 tm.hour)
      (printed 2 tm.min) (printed 2 tm.sec) (printed 3 millis)

-- `sizeof( pkt->appened_load.timestamp_field )`
abbrev pub field_size : ℕ
field_size = 48

-- `xs` written over the beginning of `ys`.
abbrev pub overlay : List ℕ → List ℕ → List ℕ
overlay [] ys = ys
overlay (x ∷ xs) [] = []
overlay (x ∷ xs) (y ∷ ys) = x ∷ overlay xs ys

abbrev pub take : ℕ → List ℕ → List ℕ
take zero xs = []
take (suc n) [] = []
take (suc n) (x ∷ xs) = x ∷ take n xs

-- `snprintf` into a field of `n` bytes, of which the last one written is 0.
abbrev pub snprintf : ℕ → List ℕ → List ℕ → List ℕ
snprintf n text field =
    overlay ((if ltb (length text) n then text else take (n - 1) text) ++ (0 ∷ [])) field

-- `memchr`: the place of the first such byte.
abbrev pub memchr : List ℕ → ℕ → Option ℕ
memchr [] b = none
memchr (x ∷ xs) b =
    if x == b then some 0 else elim (memchr xs b) [ none ↦ none | some i ↦ some (suc i) ]

-- The loop that puts a space for each 0 of the field.
unfoldable pub fill_spaces : ℕ → List ℕ → Option (List ℕ)
fill_spaces zero xs = none
fill_spaces (suc fuel) xs = elim (memchr xs 0) [
  | none ↦ some xs
  | some i ↦ fill_spaces fuel (set xs i b' ')
]

-- `strchr`: the first such byte before the end of the string.
abbrev pub strchr : List ℕ → ℕ → Option ℕ
strchr [] b = none
strchr (x ∷ xs) b =
    if x == b
    then some 0
    else if x == 0
    then none
    else elim (strchr xs b) [ none ↦ none | some i ↦ some (suc i) ]

-- The payload, and what lies behind it in the buffer, without its first brace.
abbrev pub open_object : List ℕ → List ℕ
open_object body = elim (strchr body b'{') [ none ↦ body | some i ↦ set body i b' ' ]

-- The field and the body of one datagram, as they are published. The fuel of the loop is one more
-- than the field's bytes.
unfoldable pub stamp : Tm → ℕ → List ℕ → List ℕ → Option (List ℕ × List ℕ)
stamp tm tv_usec field body =
    elim (fill_spaces (field_size + 1)
      (snprintf field_size (timestamp tm (tv_usec / 1000)) field)) [
        | none ↦ none
        | some f ↦ some (f, open_object body)
      ]
