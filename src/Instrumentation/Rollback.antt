-- ===== src/Instrumentation/Rollback.antt =====
-- Start and Shutdown of instrumentation/registry.go: what was started is stopped, in reverse order.
use fit_go.Base.{
  ℕ, ◌≡◌, refl, sym, ap, ◌∙◌, Bool, false, ◌⊎◌, inl, inr, List, [], ◌∷◌, ◌++◌, append_assoc,
  append-nil, map, reverse, Option, none, some, Result, ok, err, Text, length, Dict,
}
use fit_go.Instrumentation.Registry.{
  Registration, Registry, RegistryError, select, check_config, config_for,
}
use fit_go.Instrumentation.Lifecycle.{
  Env, Creation, hook, nil_hook, create_error, Event, created, not_created, started, not_started,
  stopped, not_stopped, StartError, Manager, History, stop_event, stop_all, shutdown, rollback,
  failed_start, after_start, after_create, start_all, start_with, start,
}

-- A call of Shutdown of the named hook, whatever it returned.
abbrev pub IsStop : Text → Event → Type 0
IsStop n (stopped m) = n ≡ m
IsStop n (not_stopped m) = n ≡ m
IsStop n (created m) = ⊥
IsStop n (not_created m) = ⊥
IsStop n (started m) = ⊥
IsStop n (not_started m) = ⊥

-- One call of Shutdown for each name, in order.
abbrev pub Stops : List Text → List Event → Type 0
Stops [] [] = Unit
Stops (n ∷ ns) (e ∷ es) = IsStop n e × Stops ns es
Stops [] (e ∷ es) = ⊥
Stops (n ∷ ns) [] = ⊥

-- The calls that start the names, in order.
unfoldable pub ups : List Text → List Event
ups [] = []
ups (n ∷ ns) = created n ∷ started n ∷ ups ns

-- The calls for a name that could not be started: a hook whose Start failed is stopped.
abbrev pub Failing : Text → List Event → Type 0
Failing n es =
    (es ≡ not_created n ∷ [])
    ⊎ ((e : Event) × (es ≡ created n ∷ not_started n ∷ e ∷ []) × IsStop n e)

-- A failed start: `before` was started, `bad` was not, and `before` and what ran already were stopped in
-- reverse order.
pub record RolledBack (running : List Text) (h0 : History) (h : History) (names : List Text)
    : Type 0 where
  pub before : List Text
  pub bad : Text
  pub after : List Text
  pub failing : List Event
  pub stops : List Event
  pub selected : names ≡ before ++ bad ∷ after
  pub history : h ≡ h0 ++ (ups before ++ (failing ++ stops))
  pub is_failing : Failing bad failing
  pub is_stops : Stops (reverse (running ++ before)) stops

abbrev names_of : List Registration → List Text
names_of = map (λ (i : Registration). i.name)

abbrev Post : List Text → History → List Text → Result (List StartError) Manager × History → Type 0
Post running h0 names (ok m, h) =
    (m.started ≡ running ++ names) × (m.done ≡ false) × (h ≡ h0 ++ ups names)
Post running h0 names (err es, h) = RolledBack running h0 h names

IsStop-stop_event : (n : Text) (o : Option ℕ) → IsStop n (stop_event n o)
IsStop-stop_event n none = refl
IsStop-stop_event n (some e) = refl

then_calls :
    (h0 h : History) (a b : Event) (es : List Event)
    → h ≡ ((h0 ++ a ∷ []) ++ b ∷ []) ++ es
    → h ≡ h0 ++ a ∷ b ∷ es
then_calls h0 h a b es e =
    e ∙ append_assoc (h0 ++ a ∷ []) (b ∷ []) es ∙ append_assoc h0 (a ∷ []) (b ∷ es)

-- One more name started first.
Post-step :
    (running : List Text) (h0 : History) (n : Text) (names : List Text)
    (x : Result (List StartError) Manager × History)
    → Post (running ++ n ∷ []) ((h0 ++ created n ∷ []) ++ started n ∷ []) names x
    → Post running h0 (n ∷ names) x
unfolding ups
Post-step running h0 n names (ok m, h) (p, d, q) = (
  p ∙ append_assoc running (n ∷ []) names,
  d,
  then_calls h0 h (created n) (started n) (ups names) q,
)
Post-step running h0 n names (err es, h) p = record {
  before = n ∷ p.before;
  bad = p.bad;
  after = p.after;
  failing = p.failing;
  stops = p.stops;
  selected = ap (λ l. n ∷ l) p.selected;
  history =
      then_calls h0 h (created n) (started n) (ups p.before ++ (p.failing ++ p.stops)) p.history;
  is_failing = p.is_failing;
  is_stops = rw (← append_assoc running (n ∷ []) p.before) p.is_stops;
}

-- How Start ends. It started the selected names, in order; or it made no call; or it started some of
-- them, failed at the next, and stopped the started ones in reverse order.
abbrev pub Started :
    Registry → List Text → History → Result (List StartError) Manager × History → Type 0
Started registry extra h0 (ok m, h) =
    (items : List Registration) × (select registry extra ≡ ok items)
    × (m.started ≡ names_of items)
    × (m.done ≡ false)
    × (h ≡ h0 ++ ups (names_of items))
Started registry extra h0 (err es, h) =
    (h ≡ h0)
    ⊎ ((items : List Registration) × (select registry extra ≡ ok items)
        × RolledBack [] h0 h (names_of items))

from_selected :
    (registry : Registry) (extra : List Text) (items : List Registration) (h0 : History)
    (x : Result (List StartError) Manager × History)
    → select registry extra ≡ ok items
    → Post [] h0 (names_of items) x
    → Started registry extra h0 x
from_selected registry extra items h0 (ok m, h) e (p, d, q) = (items, e, p, d, q)
from_selected registry extra items h0 (err es, h) e p = inr (items, e, p)

module _ (env : Env) where
  stop_all-Stops :
      (names : List Text) (h : History)
      → (es : List Event) × ((stop_all env names h).1 ≡ h ++ es) × Stops names es
  unfolding stop_all
  stop_all-Stops [] h = ([], sym (append-nil h), tt)
  stop_all-Stops (n ∷ ns) h =
      let e = stop_event n (env.stop_error n (length h)) in
      let (es, history, stops) = stop_all-Stops ns (h ++ e ∷ []) in
      (
        e ∷ es,
        history ∙ append_assoc h (e ∷ []) es,
        (IsStop-stop_event n (env.stop_error n (length h)), stops),
      )

  rollback-RolledBack :
      (running : List Text) (causes : List StartError) (h0 h : History) (n : Text)
      (names : List Text) (failing : List Event)
      → h ≡ h0 ++ failing
      → Failing n failing
      → Post running h0 (n ∷ names) (rollback env running causes h)
  unfolding rollback shutdown
  rollback-RolledBack running causes h0 h n names failing e f =
      let (es, history, stops) = stop_all-Stops (reverse running) h in
      record {
        before = [];
        bad = n;
        after = names;
        failing = failing;
        stops = es;
        selected = refl;
        history = unfold ups in (history ∙ ap (λ l. l ++ es) e ∙ append_assoc h0 failing es);
        is_failing = f;
        is_stops = rw (append-nil running) stops;
      }

  after_start-Post :
      (n : Text) (o : Option ℕ) (running : List Text) (h : History) (names : List Text)
      (rest : List Text → History → Result (List StartError) Manager × History)
      → ((running' : List Text) (h' : History) → Post running' h' names (rest running' h'))
      → Post running h (n ∷ names) (after_start env n o running (h ++ created n ∷ []) rest)
  unfolding failed_start
  after_start-Post n none running h names rest k =
      Post-step running h n names _
        (k (running ++ n ∷ []) ((h ++ created n ∷ []) ++ started n ∷ []))
  after_start-Post n (some e) running h names rest k =
      let h1 = (h ++ created n ∷ []) ++ not_started n ∷ [] in
      let stop = stop_event n (env.stop_error n (length h1)) in
      rollback-RolledBack running _ h (h1 ++ stop ∷ []) n names
        (created n ∷ not_started n ∷ stop ∷ [])
        (then_calls h (h1 ++ stop ∷ []) (created n) (not_started n) (stop ∷ []) refl)
        (inr (stop, refl, IsStop-stop_event n (env.stop_error n (length h1))))

  after_create-Post :
      (n : Text) (c : Creation) (running : List Text) (h : History) (names : List Text)
      (rest : List Text → History → Result (List StartError) Manager × History)
      → ((running' : List Text) (h' : History) → Post running' h' names (rest running' h'))
      → Post running h (n ∷ names) (after_create env n c running h rest)
  after_create-Post n (create_error e) running h names rest k =
      rollback-RolledBack running _ h (h ++ not_created n ∷ []) n names (not_created n ∷ []) refl
        (inl refl)
  after_create-Post n nil_hook running h names rest k =
      rollback-RolledBack running _ h (h ++ not_created n ∷ []) n names (not_created n ∷ []) refl
        (inl refl)
  after_create-Post n hook running h names rest k =
      after_start-Post n (env.start_error n (length (h ++ created n ∷ []))) running h names rest k

  start_all-Post :
      (configs : Dict Text) (items : List Registration) (running : List Text) (h : History)
      → Post running h (names_of items) (start_all env configs items running h)
  unfolding start_all
  start_all-Post configs [] running h =
      (sym (append-nil running), refl, unfold ups in sym (append-nil h))
  start_all-Post configs (item ∷ items) running h =
      after_create-Post item.name (env.create item.name (config_for item configs) (length h))
        running h (names_of items) (start_all env configs items) (start_all-Post configs items)

  start_with-Started :
      (registry : Registry) (extra : List Text) (s : Result RegistryError (List Registration))
      (c : Result RegistryError (Dict Text)) (h : History)
      → select registry extra ≡ s
      → Started registry extra h (start_with env s c h)
  start_with-Started registry extra (err e) c h k = inl refl
  start_with-Started registry extra (ok items) (err e) h k = inl refl
  start_with-Started registry extra (ok items) (ok configs) h k =
      from_selected registry extra items h _ k (start_all-Post configs items [] h)

  -- However the factories and hooks behave: where Start succeeds, it created and started exactly the
  -- selected instrumentations, in order, and the manager holds their names; where it fails, it either
  -- made no call, or started those before a failing one, stopped the failing one's hook where that was
  -- created, and then stopped all that it had started, each once, in reverse order.
  pub start-Started :
      (valid : Text → Bool) (registry : Registry) (extra : List Text) (config : Dict Text)
      (h : History)
      → Started registry extra h (start env valid registry extra config h)
  unfolding start
  start-Started valid registry extra config h =
      start_with-Started registry extra (select registry extra)
        (check_config valid registry [] config) h refl

  -- The first Shutdown of a manager stops each started hook once, in reverse order, whatever the hooks
  -- return; every later one makes no call and leaves the manager, with its errors, as it is.
  pub shutdown-shutdown :
      (m : Manager) (h h2 : History)
      → m.done ≡ false
      → ((es : List Event) × ((shutdown env m h).1 ≡ h ++ es) × Stops (reverse m.started) es)
        × (shutdown env (shutdown env m h).0 h2 ≡ ((shutdown env m h).0, h2))
  unfolding shutdown
  shutdown-shutdown m h h2 d = simp d (stop_all-Stops (reverse m.started) h, refl)
