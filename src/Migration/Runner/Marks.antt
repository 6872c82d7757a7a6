-- ===== src/Migration/Runner/Marks.antt =====
-- What the recorded changes of a state do to the applied, skipped and checksum views of it.
use fit_go.Base.{
  ◌≡◌, ◌&&◌, ◌||◌, not, none, some, arith, ℤ, Text, same, lookup-insert, if◌then◌else◌,
}
use fit_go.Migration.States.{State, timestamp_of}
use fit_go.Migration.Registry.{Migration}
use fit_go.Migration.Runner.{is_applied, mark_applied, mark_skipped, mark_reverted}

pub timestamp_of-mark_applied :
    (m : Migration) (now : ℤ) (s : State) (id : Text)
    → timestamp_of (mark_applied m now s) id
      ≡ (if same m.id id then some now else timestamp_of s id)
unfolding timestamp_of mark_applied
timestamp_of-mark_applied m now s id =
    rw (lookup-insert m.id id (some now) s.migrations) (ground arith)

pub timestamp_of-mark_skipped :
    (m : Migration) (now : ℤ) (s : State) (id : Text)
    → timestamp_of (mark_skipped m now s) id
      ≡ (if same m.id id then some now else timestamp_of s id)
unfolding timestamp_of mark_skipped
timestamp_of-mark_skipped m now s id =
    rw (lookup-insert m.id id (some now) s.migrations) (ground arith)

pub timestamp_of-mark_reverted :
    (m : Migration) (s : State) (id : Text)
    → timestamp_of (mark_reverted m s) id ≡ (if same m.id id then none else timestamp_of s id)
unfolding timestamp_of mark_reverted
timestamp_of-mark_reverted m s id = rw (lookup-insert m.id id none s.migrations) (ground arith)

pub is_applied-mark_applied :
    (m : Migration) (now : ℤ) (s : State) (n : Migration)
    → is_applied (mark_applied m now s) n ≡ (same m.id n.id || is_applied s n)
unfolding is_applied
is_applied-mark_applied m now s n = rw (timestamp_of-mark_applied m now s n.id) (ground arith)

pub is_applied-mark_skipped :
    (m : Migration) (now : ℤ) (s : State) (n : Migration)
    → is_applied (mark_skipped m now s) n ≡ (same m.id n.id || is_applied s n)
unfolding is_applied
is_applied-mark_skipped m now s n = rw (timestamp_of-mark_skipped m now s n.id) (ground arith)

pub is_applied-mark_reverted :
    (m : Migration) (s : State) (n : Migration)
    → is_applied (mark_reverted m s) n ≡ (not (same m.id n.id) && is_applied s n)
unfolding is_applied
is_applied-mark_reverted m s n = rw (timestamp_of-mark_reverted m s n.id) (ground arith)
