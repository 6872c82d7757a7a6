-- ===== src/Sse/Tests.antt =====
-- Concrete lines and buffers: the theorems at inputs where their hypotheses hold.
use fit_go.Base.{◌≡◌, refl, true, false, [], ◌∷◌, ◌++◌, some, ok, Text, codes, arith, same}
use fit_go.Sse.Event.{SseEvent, empty_event, cut, set_field, append_line}
use fit_go.Sse.Bounds.{IsBounded, append_line-IsBounded}
use fit_go.Sse.Split.{
  new_splitter, is_partial_mark, has_mark, find_line, past_newline, past_mark, split,
}
use fit_go.Sse.Prefixes.{split-append}

empty_event-IsBounded : IsBounded empty_event
empty_event-IsBounded = record {
  within = omega arith;
  name_within = omega arith;
  data_within = omega arith;
}

abbrev data_event : SseEvent
data_event = record { name = []; data_text = codes "a:b"; bytes = 10; data_lines = 1 }

accepts_data : append_line (codes "data: a:b") empty_event ≡ ok data_event
unfolding append_line cut set_field same
accepts_data = refl

append_line-IsBounded_example : IsBounded data_event
append_line-IsBounded_example =
    append_line-IsBounded (codes "data: a:b") empty_event data_event empty_event-IsBounded
      accepts_data

-- The byte-order mark, and a line that ends with a carriage return; its newline arrives later.
abbrev marked_line : Text
marked_line = 0xef ∷ 0xbb ∷ 0xbf ∷ 105 ∷ 13 ∷ []

finds_line : (split false new_splitter marked_line).line ≡ some (105 ∷ [])
unfolding split is_partial_mark past_mark has_mark past_newline find_line
finds_line = refl

split-append_example :
    split true new_splitter (marked_line ++ 10 ∷ 105 ∷ []) ≡ split false new_splitter marked_line
split-append_example =
    split-append true new_splitter marked_line (10 ∷ 105 ∷ []) (105 ∷ []) finds_line
