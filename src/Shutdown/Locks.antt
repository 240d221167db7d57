-- ===== src/Shutdown/Locks.antt =====
-- What try_stoping_sending_from_bridge does with the two mutexes, and to the connections.
use vs_slns.Base.{
  ℕ, zero, suc, ◌+◌, ◌≡◌, refl, ap, ◌∙◌, inl, inr, Bool, true, false, List, [], ◌∷◌, map,
  if◌then◌else◌, Bool-cases, arith,
}
use vs_slns.Shutdown.{
  Tcp, Held, Ab, Others, wait, unlock_tcps, close_main, with_pm, with_tcps, stop_sending_of,
  try_stoping_sending_from_bridge,
}

abbrev pub held : Bool → Bool → ℕ → Held
held t p b = record { tcps_mtx = t; pm_lock = p; bad_unlocks = b }

-- Some of `n` attempts from the i-th on is left the mutex.
unfoldable pub any_from : ℕ → ℕ → (ℕ → Bool) → Bool
any_from zero i f = false
any_from (suc n) i f = if f i then true else any_from n (i + 1) f

-- Within ten attempts each, both mutexes are left to this thread.
abbrev pub gets_both : Others → Bool
gets_both o = if any_from 10 0 o.leave_tcps then any_from 10 0 o.leave_pm else false

abbrev pub told : Ab → Ab
told pb = record pb { stop_sending = true }

-- The closings that a connection is due: one for a main connection that stands, else none.
abbrev due : Bool → Bool → ℕ
due true true = 1
due true false = 0
due false _ = 0

abbrev pub closed_if_due : Tcp → Tcp
closed_if_due t = record {
  main_instance = t.main_instance;
  tcp_conn_established = t.tcp_conn_established;
  closes = t.closes + due t.main_instance t.tcp_conn_established;
}

abbrev pub closed : Ab → Ab
closed pb = record pb { stop_sending = true; tcps = map closed_if_due pb.tcps }

close_main-due : (t : Tcp) → close_main t ≡ closed_if_due t
close_main-due t = ground arith

map-due : (ts : List Tcp) → map close_main ts ≡ map closed_if_due ts
map-due [] = refl
map-due (t ∷ ts) = rw (close_main-due t, map-due ts) refl

with_pm-free :
    (n i : ℕ) (o : Others) (t : Bool) (b : ℕ) (ts : List Tcp)
    → with_pm n i o (held t false b, ts) ≡ (
        if any_from n i o.leave_pm
        then (unlock_tcps (held t true b), map close_main ts)
        else (held t false b, ts))
unfolding with_pm any_from
with_pm-free zero i o t b ts = refl
with_pm-free (suc n) i o t b ts = elim (Bool-cases (o.leave_pm i)) [
  | inl e ↦ rw (e) refl
  | inr e ↦ rw (e) (with_pm-free n (i + 1) o t b ts)
]

-- A mutex of the default kind that this thread holds is not got again.
with_pm-held :
    (n i : ℕ) (o : Others) (t : Bool) (b : ℕ) (ts : List Tcp)
    → with_pm n i o (held t true b, ts) ≡ (held t true b, ts)
unfolding with_pm
with_pm-held zero i o t b ts = refl
with_pm-held (suc n) i o t b ts = with_pm-held n (i + 1) o t b ts

with_tcps-free :
    (n i : ℕ) (o : Others) (p : Bool) (b : ℕ) (ts : List Tcp)
    → with_tcps n i o (held false p b, ts) ≡ (
        if any_from n i o.leave_tcps
        then (let (g, us) = with_pm 10 0 o (held true p b, ts) in (unlock_tcps g, us))
        else (held false p b, ts))
unfolding with_tcps any_from
with_tcps-free zero i o p b ts = refl
with_tcps-free (suc n) i o p b ts = elim (Bool-cases (o.leave_tcps i)) [
  | inl e ↦ rw (e) refl
  | inr e ↦ rw (e) (with_tcps-free n (i + 1) o p b ts)
]

abbrev unlocked : Held × List Tcp → Held × List Tcp
unlocked r = (unlock_tcps r.0, r.1)

abbrev stopped : ℕ → Ab → Held × List Tcp → ℕ × (Held × Ab)
stopped sleeps pb r = (sleeps, (r.0, record pb { stop_sending = true; tcps = r.1 }))

abbrev no_locks : ℕ → List Tcp → Held × List Tcp
no_locks b ts = (held false false b, ts)

abbrev keeps_pm : ℕ → List Tcp → Held × List Tcp
keeps_pm b ts = (held false true b, ts)

join :
    (x y : Bool) (b : ℕ) (ts us : List Tcp)
    → (if x
        then unlocked (if y then (unlock_tcps (held true true b), us) else (held true false b, ts))
        else no_locks b ts)
      ≡ (if (if x then y else false) then keeps_pm (b + 1) us else no_locks b ts)
join true true b ts us = refl
join true false b ts us = refl
join false y b ts us = refl

alone :
    (x : Bool) (b : ℕ) (ts : List Tcp)
    → (if x then unlocked (held true true b, ts) else keeps_pm b ts) ≡ keeps_pm b ts
alone true b ts = refl
alone false b ts = refl

parted :
    (x : Bool) (sleeps b : ℕ) (pb : Ab)
    → stopped sleeps pb
        (if x then keeps_pm (b + 1) (map closed_if_due pb.tcps) else no_locks b pb.tcps)
      ≡ (sleeps, if x then (held false true (b + 1), closed pb) else (held false false b, told pb))
parted true sleeps b pb = refl
parted false sleeps b pb = refl

both :
    (o : Others) (b : ℕ) (ts : List Tcp)
    → with_tcps 10 0 o (held false false b, ts) ≡ (
        if gets_both o
        then (held false true (b + 1), map closed_if_due ts)
        else (held false false b, ts))
both o b ts =
    with_tcps-free 10 0 o false b ts
    ∙ ap (λ r. if any_from 10 0 o.leave_tcps then unlocked r else no_locks b ts)
        (with_pm-free 10 0 o true b ts)
    ∙ join (any_from 10 0 o.leave_tcps) (any_from 10 0 o.leave_pm) b ts (map close_main ts)
    ∙ ap (λ us. if gets_both o then keeps_pm (b + 1) us else no_locks b ts) (map-due ts)

starved :
    (o : Others) (b : ℕ) (ts : List Tcp)
    → with_tcps 10 0 o (held false true b, ts) ≡ (held false true b, ts)
starved o b ts =
    with_tcps-free 10 0 o true b ts
    ∙ ap (λ r. if any_from 10 0 o.leave_tcps then unlocked r else keeps_pm b ts)
        (with_pm-held 10 0 o true b ts)
    ∙ alone (any_from 10 0 o.leave_tcps) b ts

-- A thread that holds neither mutex: if both are left to it, every main connection that stands is
-- closed once and no other; `pm_lock` stays locked, and the mutex of the connections is unlocked once
-- more than it was locked. Otherwise no connection is closed and no mutex kept. In both cases the
-- bridge is told to stop.
pub stop_sending_of-closes :
    (guard b : ℕ) (o : Others) (pb : Ab)
    → stop_sending_of guard o (held false false b) pb ≡ (
      wait guard o.stoped 0,
      if gets_both o then (held false true (b + 1), closed pb) else (held false false b, told pb),
    )
unfolding stop_sending_of
stop_sending_of-closes guard b o pb =
    ap (stopped (wait guard o.stoped 0) pb) (both o b pb.tcps)
    ∙ parted (gets_both o) (wait guard o.stoped 0) b pb

abbrev chain : ℕ → List (Others × Ab) → ℕ × (Held × Ab) → Held × List Ab
chain guard pbs (_, (g, next)) =
    let (last, rest) = try_stoping_sending_from_bridge guard pbs g in (last, next ∷ rest)

abbrev behind : Ab → Held × List Ab → Held × List Ab
behind pb (last, rest) = (last, pb ∷ rest)

stop_starved :
    (guard b : ℕ) (o : Others) (pb : Ab)
    → stop_sending_of guard o (held false true b) pb
      ≡ (wait guard o.stoped 0, (held false true b, told pb))
unfolding stop_sending_of
stop_starved guard b o pb = ap (stopped (wait guard o.stoped 0) pb) (starved o b pb.tcps)

told_only :
    (guard b : ℕ) (pbs : List (Others × Ab))
    → try_stoping_sending_from_bridge guard pbs (held false true b)
      ≡ (held false true b, map (λ x. told x.1) pbs)
unfolding try_stoping_sending_from_bridge
told_only guard b [] = refl
told_only guard b ((o, pb) ∷ pbs) =
    ap (chain guard pbs) (stop_starved guard b o pb) ∙ ap (behind (told pb)) (told_only guard b pbs)

-- Once the connections of one bridge were closed, those of the bridges after it stay open, whatever
-- the other threads do: the thread still holds `pm_lock`, and holds it when it has ended.
pub try_stoping_sending_from_bridge_leaves_open :
    (guard b : ℕ) (o : Others) (pb : Ab) (pbs : List (Others × Ab))
    → gets_both o ≡ true
    → try_stoping_sending_from_bridge guard ((o, pb) ∷ pbs) (held false false b)
      ≡ (held false true (b + 1), closed pb ∷ map (λ x. told x.1) pbs)
unfolding try_stoping_sending_from_bridge
try_stoping_sending_from_bridge_leaves_open guard b o pb pbs e =
    ap (chain guard pbs) (
      stop_sending_of-closes guard b o pb
      ∙ ap
          (λ x. (
            wait guard o.stoped 0,
            if x then (held false true (b + 1), closed pb) else (held false false b, told pb),
          ))
          e)
    ∙ ap (behind (closed pb)) (told_only guard (b + 1) pbs)
