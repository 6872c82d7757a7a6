-- ===== src/Migration/Runner/Refused.antt =====
-- The first loop of revertState in migration/migration.go: which reverts it refuses, and with which name.
use fit_go.Base.{
  ◌≡◌, ap, ◌∙◌, true, false, ◌⊎◌, List, [], ◌∷◌, ◌++◌, reverse, reverse-append, reverse-cons,
  append_assoc, some, err, All, All-reverse, drop, ℕ, Option, Text, arith,
}
use fit_go.Migration.Errors.{irreversible}
use fit_go.Migration.States.{State}
use fit_go.Migration.Registry.{Migration, Runner}
use fit_go.Migration.Effects.{Env, World}
use fit_go.Migration.Runner.{is_applied, is_skipped, revert_state, first_irreversible}
use fit_go.Migration.Runner.Revert.{refused_at}

-- A migration whose Up function took effect, and that has no Down function.
abbrev pub IsStuck : State → Migration → Type 0
IsStuck s m = (is_applied s m ≡ true) × (is_skipped s m ≡ false) × (m.has_down ≡ false)

-- A migration that can be taken back: it is not applied, or was only skipped, or has a Down function.
abbrev pub IsFree : State → Migration → Type 0
IsFree s m = (is_applied s m ≡ false) ⊎ (is_skipped s m ≡ true) ⊎ (m.has_down ≡ true)

first_irreversible-stuck :
    (s : State) (m : Migration) (ms : List Migration)
    → IsStuck s m
    → first_irreversible s (m ∷ ms) ≡ some m.id
unfolding first_irreversible
first_irreversible-stuck s m ms (a, b, c) = rw (a, b, c)

first_irreversible-free :
    (s : State) (m : Migration) (ms : List Migration)
    → IsFree s m
    → first_irreversible s (m ∷ ms) ≡ first_irreversible s ms
unfolding first_irreversible
first_irreversible-free s m ms free = ground arith

first_irreversible-append :
    (s : State) (free : List Migration) (m : Migration) (ms : List Migration)
    → All (IsFree s) free
    → IsStuck s m
    → first_irreversible s (free ++ m ∷ ms) ≡ some m.id
first_irreversible-append s [] m ms h stuck = first_irreversible-stuck s m ms stuck
first_irreversible-append s (n ∷ ns) m ms h stuck =
    first_irreversible-free s n (ns ++ m ∷ ms) h.0 ∙ first_irreversible-append s ns m ms h.1 stuck

reverse_around :
    (before after : List Migration) (m : Migration)
    → reverse (before ++ m ∷ after) ≡ reverse after ++ m ∷ reverse before
reverse_around before after m =
    reverse-append before (m ∷ after)
    ∙ ap (λ l. l ++ reverse before) (reverse-cons m after)
    ∙ append_assoc (reverse after) (m ∷ []) (reverse before)

-- Where, of the migrations from the index on, one was applied, not only skipped, and has no Down
-- function, and each one after it is not applied, or was only skipped, or has a Down function, the
-- revert returns the error that names it, and the world is as it was: nothing was called, loaded or
-- saved, whatever comes before it.
pub revert_state_refused :
    (env : Env) (r : Runner) (fence : Option Text) (s : State) (to : ℕ) (w : World)
    (before after : List Migration) (m : Migration)
    → drop to r.migrations ≡ before ++ m ∷ after
    → IsStuck s m
    → All (IsFree s) after
    → revert_state env r fence s to w ≡ (err (irreversible m.id), w)
revert_state_refused env r fence s to w before after m split stuck free =
    refused_at env r fence s to w m.id (
      ap (λ ms. first_irreversible s (reverse ms)) split
      ∙ ap (first_irreversible s) (reverse_around before after m)
      ∙ first_irreversible-append s (reverse after) m (reverse before)
          (All-reverse (IsFree s) after free) stuck)
