-- ===== src/Migration/Runner/Undone.antt =====
-- Revert of migration/migration.go: the state after one migration was reverted, and what is to be undone.
use fit_go.Base.{
  ◌≡◌, refl, true, false, not, ◌&&◌, inl, inr, List, [], ◌∷◌, ◌++◌, map, reverse, reverse-cons,
  append-nil, append_assoc, none, arith, Text, same, same_iff, All-append, All-reverse, All,
  if◌then◌else◌, Bool-cases, lookup-delete,
}
use fit_go.Migration.States.{State, timestamp_of}
use fit_go.Migration.Registry.{Migration, Runner}
use fit_go.Migration.Effects.{Event, down_done}
use fit_go.Migration.Runner.{is_applied, is_skipped, mark_reverted, with_latest}
use fit_go.Migration.Runner.Marks.{timestamp_of-mark_reverted, is_applied-mark_reverted}
use fit_go.Migration.Registry.Sorted.{IsOther, Distinct}

-- The names whose Down function a revert calls, in order: those applied and not merely skipped.
unfoldable pub to_undo : State → List Migration → List Text
to_undo s [] = []
to_undo s (m ∷ ms) =
    let rest = to_undo s ms in if is_applied s m && not (is_skipped s m) then m.id ∷ rest else rest

-- The state after one migration was reverted and the latest one was recomputed.
abbrev pub undone : Runner → Migration → State → State
undone r m s = with_latest r (mark_reverted m s)

pub is_applied-undone :
    (r : Runner) (m n : Migration) (s : State)
    → is_applied (undone r m s) n ≡ (not (same m.id n.id) && is_applied s n)
unfolding with_latest is_applied timestamp_of
is_applied-undone r m n s = unfold is_applied timestamp_of in is_applied-mark_reverted m s n

pub timestamp_of-undone :
    (r : Runner) (m : Migration) (s : State) (id : Text)
    → timestamp_of (undone r m s) id ≡ (if same m.id id then none else timestamp_of s id)
unfolding with_latest timestamp_of
timestamp_of-undone r m s id = unfold timestamp_of in timestamp_of-mark_reverted m s id

pub is_skipped-undone :
    (r : Runner) (m n : Migration) (s : State)
    → IsOther m n
    → is_skipped (undone r m s) n ≡ is_skipped s n
unfolding with_latest is_skipped mark_reverted
is_skipped-undone r m n s h = rw (lookup-delete m.id n.id s.skipped_migrations, h)

pub to_undo-undone :
    (r : Runner) (m : Migration) (s : State) (ms : List Migration)
    → All (IsOther m) ms
    → to_undo (undone r m s) ms ≡ to_undo s ms
unfolding to_undo
to_undo-undone r m s [] h = refl
to_undo-undone r m s (n ∷ ms) h =
    rw (is_applied-undone r m n s, is_skipped-undone r m n s h.0, h.0)
      (rw (to_undo-undone r m s ms h.1))

pub All-append_one :
    (m : Migration) (ms : List Migration) (n : Migration)
    → All (IsOther m) ms
    → IsOther m n
    → All (IsOther m) (ms ++ n ∷ [])
All-append_one m ms n h k = All-append (IsOther m) ms (n ∷ []) h (k, tt)

pub Distinct-append_one :
    (ms : List Migration) (n : Migration)
    → Distinct ms
    → All (λ m. IsOther m n) ms
    → Distinct (ms ++ n ∷ [])
Distinct-append_one [] n d h = (tt, tt)
Distinct-append_one (m ∷ ms) n d h =
    (All-append_one m ms n d.0 h.0, Distinct-append_one ms n d.1 h.1)

pub same_flip : (s t : Text) → same s t ≡ false → same t s ≡ false
same_flip s t h = ground (arith, same_iff s t, same_iff t s)

pub others_flip :
    (m : Migration) (ms : List Migration) → All (IsOther m) ms → All (λ n. IsOther n m) ms
others_flip m [] h = tt
others_flip m (n ∷ ms) h = (same_flip m.id n.id h.0, others_flip m ms h.1)

pub Distinct-reverse : (ms : List Migration) → Distinct ms → Distinct (reverse ms)
Distinct-reverse [] d = tt
Distinct-reverse (m ∷ ms) d = rw (reverse-cons m ms) (
    Distinct-append_one (reverse ms) m (Distinct-reverse ms d.1)
      (All-reverse (λ n. IsOther n m) ms (others_flip m ms d.0)))

abbrev pub NoneApplied : State → List Migration → Type 0
NoneApplied s = All (λ m. is_applied s m ≡ false)

-- From `s` to `s'` the migrations of the list were reverted; none became applied, and the names
-- outside the list kept their timestamps.
pub record Shrunk (ms : List Migration) (s s' : State) : Type 0 where
  pub reverted : NoneApplied s' ms
  pub keeps : (n : Migration) → is_applied s n ≡ false → is_applied s' n ≡ false
  pub outside :
      (n : Migration) → All (λ m. IsOther m n) ms → timestamp_of s' n.id ≡ timestamp_of s n.id

pub undone_history :
    (m : Migration) (ms : List Migration) (s : State) (before : List Event)
    → is_applied s m ≡ true
    → (before ++ (if is_skipped s m then [] else down_done m.id ∷ []))
        ++ map down_done (to_undo s ms)
      ≡ before ++ map down_done (to_undo s (m ∷ ms))
unfolding to_undo
undone_history m ms s before h = elim (Bool-cases (is_skipped s m)) [
  | inl skipped ↦ rw (skipped, h, append-nil)
  | inr run ↦ rw (run, h) (append_assoc before (down_done m.id ∷ []) (map down_done (to_undo s ms)))
]
