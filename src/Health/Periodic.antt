-- ===== src/Health/Periodic.antt =====
-- health/health.go: the loops that write the liveness file, as a step relation. A loop is named by the
-- number of loops started before it, which stands for its channels and its flag. Every section that
-- periodicMu guards is one step; a loop's check, its look at the flag and its write are three.
use fit_go.Base.{
  ℕ, suc, ◌≤◌, ◌<◌, ◌≡◌, Bool, true, false, List, [], ◌∷◌, ◌++◌, Option, none, some, if◌then◌else◌,
  ◌==◌,
}

-- Where a loop stands: before its first check, in its select, after a check, past the look at the
-- flag and before the write, or returned with `done` closed.
pub data Phase : Type 0 where
  fresh selecting finished : Phase
  checked admitted : Bool → Phase

-- `stopped` is the flag and also says that the stop channel is closed: one call sets both.
pub record Loop : Type 0 where
  pub stopped : Bool
  pub phase : Phase

-- A managed start that waits for the loops it stopped: its generation and their channels.
pub record Managed : Type 0 where
  pub generation : ℕ
  pub dones : List ℕ

-- Checker's periodic fields, the loops, and whether the liveness file is there. periodicStops and
-- periodicStates have the same loops and are one list; `managed` is the holder of periodicStartMu.
pub record System : Type 0 where
  pub generation : ℕ
  pub stops : List ℕ
  pub dones : List ℕ
  pub count : ℕ
  pub loop : ℕ → Loop
  pub managed : Option Managed
  pub file : Bool

unfoldable pub update : (ℕ → Loop) → ℕ → Loop → ℕ → Loop
update loop i l j = if i == j then l else loop j

abbrev pub has : ℕ → List ℕ → Bool
has i [] = false
has i (j ∷ js) = if i == j then true else has i js

abbrev pub is_finished : Phase → Bool
is_finished finished = true
is_finished fresh = false
is_finished selecting = false
is_finished (checked h) = false
is_finished (admitted h) = false

-- startPeriodicCheckLocked
unfoldable pub start_locked : System → System
start_locked s = record s {
  stops = s.stops ++ s.count ∷ [];
  dones = s.dones ++ s.count ∷ [];
  count = suc s.count;
  loop = update s.loop s.count (record { stopped = false; phase = fresh });
}

abbrev pub signalled : List ℕ → (ℕ → Loop) → ℕ → Loop
signalled stops loop i = record {
  stopped = if has i stops then true else (loop i).stopped;
  phase = (loop i).phase;
}

-- The channels that are not closed.
unfoldable pub unfinished : (ℕ → Loop) → List ℕ → List ℕ
unfinished loop [] = []
unfinished loop (i ∷ is) =
    let rest = unfinished loop is in if is_finished (loop i).phase then rest else i ∷ rest

-- stopPeriodicCheckLocked: the flags set, the lists emptied but for the unfinished loops.
unfoldable pub stop_locked : System → System
stop_locked s = record s {
  stops = [];
  dones = unfinished s.loop s.dones;
  loop = signalled s.stops s.loop;
}

-- StopPeriodicCheckContext up to its wait, which is for the `dones` of the new state.
unfoldable pub stop_periodic : System → System
stop_periodic s = stop_locked (record s { generation = suc s.generation })

-- startPeriodicCheckAtGeneration up to its wait.
unfoldable pub begin_managed : ℕ → System → System
begin_managed g s =
    if s.generation == g
    then record (stop_locked s) {
      managed = some (record { generation = g; dones = (stop_locked s).dones });
    }
    else s

-- The end of startPeriodicCheckAtGeneration, after the wait.
unfoldable pub finish_managed : Managed → System → System
finish_managed m s =
    if s.generation == m.generation
    then record (start_locked s) { managed = none }
    else record s { managed = none }

unfoldable pub set_phase : ℕ → Phase → System → System
set_phase i p s = record s {
  loop = update s.loop i (record { stopped = (s.loop i).stopped; phase = p });
}

-- writeHealthFileIfActive after Check: a stopped loop returns, another goes on to write.
unfoldable pub decide : ℕ → Bool → System → System
decide i healthy s = set_phase i (if (s.loop i).stopped then finished else admitted healthy) s

-- The write of the file, or its removal.
unfoldable pub write : ℕ → Bool → System → System
write i healthy s = record (set_phase i selecting s) { file = healthy }

abbrev pub IsFinished : System → ℕ → Type 0
IsFinished s i = is_finished (s.loop i).phase ≡ true

-- waitForPeriodicChecks returned nil: every channel was seen closed.
abbrev pub Waited : System → List ℕ → Type 0
Waited s [] = Unit
Waited s (i ∷ is) = IsFinished s i × Waited s is

-- A loop checks at once, and then when its ticker fires.
pub data CanCheck : Phase → Type 0 where
  first : CanCheck fresh
  tick : CanCheck selecting

-- One step of a loop, of a caller of StopPeriodicCheck, or of a managed start.
pub data Quiet (s t : System) : Type 0 where
  check :
      (i : ℕ) (healthy : Bool)
      → i < s.count
      → CanCheck (s.loop i).phase
      → t ≡ set_phase i (checked healthy) s
      → Quiet s t
  look :
      (i : ℕ) (healthy : Bool)
      → i < s.count
      → (s.loop i).phase ≡ checked healthy
      → t ≡ decide i healthy s
      → Quiet s t
  put :
      (i : ℕ) (healthy : Bool)
      → i < s.count
      → (s.loop i).phase ≡ admitted healthy
      → t ≡ write i healthy s
      → Quiet s t
  leave :
      (i : ℕ)
      → i < s.count
      → (s.loop i).phase ≡ selecting
      → (s.loop i).stopped ≡ true
      → t ≡ set_phase i finished s
      → Quiet s t
  stop : t ≡ stop_periodic s → Quiet s t
  begin : (g : ℕ) → g ≤ s.generation → s.managed ≡ none → t ≡ begin_managed g s → Quiet s t
  finish :
      (m : Managed) → s.managed ≡ some m → Waited s m.dones → t ≡ finish_managed m s → Quiet s t

-- The public StartPeriodicCheck adds a loop on every call.
pub data Step (s t : System) : Type 0 where
  quiet : Quiet s t → Step s t
  add : t ≡ start_locked s → Step s t

pub data Reach (s : System) : System → Type 0 where
  here : Reach s s
  next : {t u : System} → Reach s t → Step t u → Reach s u

abbrev pub idle_loop : Loop
idle_loop = record { stopped = true; phase = finished }

-- NewChecker
abbrev pub new_system : System
new_system = record {
  generation = 0;
  stops = [];
  dones = [];
  count = 0;
  loop = λ i. idle_loop;
  managed = none;
  file = false;
}

-- Runs without the public StartPeriodicCheck.
pub data Managing (s : System) : System → Type 0 where
  start : Managing s s
  then_quiet : {t u : System} → Managing s t → Quiet t u → Managing s u
