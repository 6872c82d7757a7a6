-- ===== src/Sse/Bounds.antt =====
-- featureSSEEvent of feature/sse.go stays within its limit.
use fit_go.Base.{
  ℕ, ◌+◌, ◌-◌, ◌≤◌, ◌≡◌, subst, [], ◌∷◌, Result, ok, err, ltb, leb, ◌==◌, Text, codes, length,
  length-append, same, arith, Bool-cases, inl, inr,
}
use fit_go.Sse.Event.{
  SseEvent, EventError, max_event_size, is_comment, cut, trim_blank, joined, set_field, charged,
  append_line,
}

-- The event's bytes are within the limit, and its name and its data within its bytes.
pub record IsBounded (e : SseEvent) : Type 0 where
  pub within : e.bytes ≤ max_event_size
  pub name_within : length e.name ≤ e.bytes
  pub data_within : length e.data_text ≤ e.bytes

length-cut : (line : Text) → length (cut line).1 ≤ length line
unfolding cut
length-cut [] = omega arith
length-cut (c ∷ cs) = elim (Bool-cases (c == b':')) [
  | inl colon ↦ rw colon (omega arith)
  | inr other ↦ rw other (omega (arith, length-cut cs))
]

length-trim_blank : (value : Text) → length (trim_blank value) ≤ length value
length-trim_blank [] = omega arith
length-trim_blank (c ∷ cs) = elim (Bool-cases (c == b' ')) [
  | inl blank ↦ rw blank (omega arith)
  | inr other ↦ rw other (omega arith)
]

length-joined :
    (lines : ℕ) (t value : Text) → length (joined lines t value) ≤ length t + (length value + 1)
length-joined lines t value = elim (Bool-cases (ltb 0 lines)) [
  | inl more ↦ rw more (omega (arith, length-append t (10 ∷ value)))
  | inr none ↦ rw none (omega (arith, length-append t value))
]

set_field-IsBounded :
    (field value line : Text) (e : SseEvent)
    → length value ≤ length line
    → e.bytes + (length line + 1) ≤ max_event_size
    → IsBounded e
    → IsBounded (set_field field value (charged line e))
unfolding set_field
set_field-IsBounded field value line e v w b = elim (Bool-cases (same field (codes "event"))) [
  | inl event ↦
      rw event (record {
        within = w;
        name_within = omega arith;
        data_within = omega (arith, b.data_within);
      })
  | inr no_event ↦ elim (Bool-cases (same field (codes "data"))) [
    | inl datum ↦
        rw (no_event, datum)
          (record {
            within = w;
            name_within = omega (arith, b.name_within);
            data_within =
                omega (arith, b.data_within, length-joined e.data_lines e.data_text value);
          })
    | inr other ↦
        rw (no_event, other)
          (record {
            within = w;
            name_within = omega (arith, b.name_within);
            data_within = omega (arith, b.data_within);
          })
  ]
]

-- Adding a line to an event that is within its limits leaves it so, where it is accepted.
pub append_line-IsBounded :
    (line : Text) (e e' : SseEvent) → IsBounded e → append_line line e ≡ ok e' → IsBounded e'
unfolding append_line
append_line-IsBounded line e e' b h = elim (Bool-cases (is_comment line)) [
  | inl comment ↦ let same_event : e ≡ e' = cc (simp comment at h) in subst IsBounded same_event b
  | inr field ↦ elim (Bool-cases (leb (max_event_size - e.bytes) (length line))) [
    | inl large ↦ absurd (refused (simp (field, large) at h))
    | inr fits ↦
        let made : set_field (cut line).0 (trim_blank (cut line).1) (charged line e) ≡ e' =
          cc (simp (field, fits) at h) in
        subst IsBounded made (
          set_field-IsBounded (cut line).0 (trim_blank (cut line).1) line e
            (omega (arith, length-cut line, length-trim_blank (cut line).1)) (ground arith) b)
  ]
]
  where
    refused :
        {x : EventError} {a : SseEvent} → ◌≡◌ {A = Result EventError SseEvent} (err x) (ok a) → ⊥
    refused q = cc
