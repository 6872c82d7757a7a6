-- ===== src/Sse/Event.antt =====
-- feature/sse.go: featureSSEEvent.
use fit_go.Base.{
  ℕ, suc, ◌+◌, ◌-◌, ◌*◌, ◌^◌, Bool, false, ◌&&◌, [], ◌∷◌, ◌++◌, Result, ok, err, if◌then◌else◌, ltb,
  leb, ◌==◌, Text, codes, length, same, is_empty,
}

pub data EventError : Type 0 where
  too_large : EventError

abbrev pub max_event_size : ℕ
max_event_size = 16 * 2 ^ 20

-- type featureSSEEvent
pub record SseEvent : Type 0 where
  pub name : Text
  pub data_text : Text
  pub bytes : ℕ
  pub data_lines : ℕ

abbrev pub empty_event : SseEvent
empty_event = record { name = []; data_text = []; bytes = 0; data_lines = 0 }

abbrev pub is_comment : Text → Bool
is_comment [] = false
is_comment (c ∷ cs) = c == b':'

-- strings.Cut(line, ":"): what stands before the first colon, and what follows it.
unfoldable pub cut : Text → Text × Text
cut [] = ([], [])
cut (c ∷ cs) = let (field, value) = cut cs in if c == b':' then ([], cs) else (c ∷ field, value)

-- strings.TrimPrefix(value, " "). Without a colon the value is empty, and so unchanged.
abbrev pub trim_blank : Text → Text
trim_blank [] = []
trim_blank (c ∷ cs) = if c == b' ' then cs else c ∷ cs

abbrev pub joined : ℕ → Text → Text → Text
joined lines text value = if ltb 0 lines then text ++ 10 ∷ value else text ++ value

-- The switch on the field.
unfoldable pub set_field : Text → Text → SseEvent → SseEvent
set_field field value e =
    if same field (codes "event")
    then record e { name = value }
    else if same field (codes "data")
    then record e {
      data_text = joined e.data_lines e.data_text value;
      data_lines = suc e.data_lines;
    }
    else e

abbrev pub charged : Text → SseEvent → SseEvent
charged line e = record e { bytes = e.bytes + (length line + 1) }

-- featureSSEEvent.appendLine. The number of bytes never exceeds the limit, so the difference is exact.
unfoldable pub append_line : Text → SseEvent → Result EventError SseEvent
append_line line e =
    if is_comment line
    then ok e
    else if leb (max_event_size - e.bytes) (length line)
    then err too_large
    else ok (set_field (cut line).0 (trim_blank (cut line).1) (charged line e))

-- featureSSEEvent.empty
unfoldable pub is_empty_event : SseEvent → Bool
is_empty_event e = is_empty e.name && e.data_lines == 0

-- featureSSEEvent.reset
unfoldable pub reset : SseEvent → SseEvent
reset e = empty_event
