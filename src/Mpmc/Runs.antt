-- ===== src/Mpmc/Runs.antt =====
-- Runs, a step at a time.
use vs_slns.Base.{ℕ, List}
use vs_slns.Mpmc.{System, Event, Step, Reach, later, add, note}

pub record Run (c : ℕ) : Type 0 where
  pub sent : List ℕ
  pub got : List ℕ
  pub last : System
  pub reach : Reach c sent got last

-- One more step.
infixl 20 ◌▷◌
abbrev pub ◌▷◌ : {c : ℕ} (r : Run c) {t : System} {e : Event} → Step r.last e t → Run c
◌▷◌ r {t} {e} st = record {
  sent = add r.sent e;
  got = note r.got e;
  last = t;
  reach = later r.reach st;
}
