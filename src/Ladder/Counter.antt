-- ===== src/Ladder/Counter.antt =====
-- The counters of plc/ladder/state.go and plc/ladder/ladder.go. Go's int is an integer here: 2 ^ 63
-- edges would wrap it.
pub mod Edges
use tentacle_next.Prelude.{ℕ, Bool, true, false, not, ◌&&◌, ◌||◌, if◌then◌else◌}
use tentacle_next.Prelude.Int.{ℤ, pos, negsuc, ◌+ℤ◌, ◌-ℤ◌, leb_ℤ}

pub record CounterState : Type 0 where
  pub preset : ℤ
  pub acc : ℤ
  pub dn : Bool
  pub prev_en : Bool

abbrev pub new_counter : ℤ → CounterState
new_counter preset = record { preset = preset; acc = pos 0; dn = false; prev_en = false }

-- The rising edge test, `rungIn && !c.prevEN`.
abbrev pub rises : Bool → Bool → Bool
rises before now = now && not before

-- ctuCounter.evaluate, on the counter that it names.
unfoldable pub ctu : Bool → CounterState → CounterState
ctu rung_in c =
    let acc = if rises c.prev_en rung_in then c.acc +ℤ pos 1 else c.acc in
    record c { acc = acc; dn = c.dn || leb_ℤ c.preset acc; prev_en = rung_in }

-- ctdCounter.evaluate, on the counter that it names.
unfoldable pub ctd : Bool → CounterState → CounterState
ctd rung_in c =
    let acc = if rises c.prev_en rung_in then c.acc -ℤ pos 1 else c.acc in
    record c { acc = acc; dn = c.dn || leb_ℤ acc (pos 0); prev_en = rung_in }
