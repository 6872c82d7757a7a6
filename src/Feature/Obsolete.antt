-- ===== src/Feature/Obsolete.antt =====
-- feature/flags.go: a stream that was opened for a context that the client has left.
use fit_go.Base.{
  ℕ, ◌≡◌, ◌≢◌, refl, Bool, false, inl, inr, List, [], ◌∷◌, Option, none, some, ◌==◌, Text, codes,
  is_empty, ℤ, Bool-cases, arith,
}
use fit_go.Sse.Event.{SseEvent, empty_event, append_line, reset}
use fit_go.Feature.Strategies.{FeatureState}
use fit_go.Feature.Repository.{Client, apply_full_feature_set, apply_feature, delete_feature}
use fit_go.Feature.Stream.{
  StreamLibrary, StreamEnd, full_set, one_feature, stop_or, appended, handle_event, dispatch,
  consume_lines, consume_stream,
}

module _ {F V : Type 0} (lib : StreamLibrary F V) (revision : ℕ) (c : Client V)
    (left : (c.context_revision == revision) ≡ false) where
  apply_full_feature_set-left :
      (features : List (Option (FeatureState V)))
      → (apply_full_feature_set features revision c).1 ≡ c
  unfolding apply_full_feature_set
  apply_full_feature_set-left features = simp left

  apply_feature-left : (f : FeatureState V) → (apply_feature f revision c).1 ≡ c
  unfolding apply_feature
  apply_feature-left f = elim (Bool-cases (is_empty f.feature_key)) [
    | inl a ↦ simp (left, a)
    | inr a ↦ simp (left, a)
  ]

  delete_feature-left : (f : FeatureState V) → (delete_feature f revision c).1 ≡ c
  unfolding delete_feature
  delete_feature-left f = elim (Bool-cases (is_empty f.feature_key)) [
    | inl a ↦ simp (left, a)
    | inr a ↦ simp (left, a)
  ]

  full_set-left : (o : Option (List (Option (FeatureState V)))) → (full_set lib revision c o).1 ≡ c
  full_set-left none = refl
  full_set-left (some features) = apply_full_feature_set-left features

  one_feature-left :
      (change : FeatureState V → ℕ → Client V → Bool × Client V) (name : Text)
      (o : Option (FeatureState V))
      → ((f : FeatureState V) → (change f revision c).1 ≡ c)
      → (one_feature lib change name revision c o).1 ≡ c
  one_feature-left change name none h = refl
  one_feature-left change name (some f) h = h f

  handle_event-left :
      (configured : ℤ) (name payload : Text)
      → (handle_event lib configured name payload revision c).1 ≡ c
  unfolding handle_event
  handle_event-left configured name payload =
      let full = full_set-left (lib.decode_features payload) in
      let put =
        one_feature-left apply_feature (codes "feature") (lib.decode_feature payload)
          apply_feature-left in
      let removed =
        one_feature-left delete_feature (codes "delete") (lib.decode_feature payload)
          delete_feature-left in
      ground arith

  dispatch-left :
      (configured : ℤ) (event : SseEvent) → (dispatch lib configured revision event c).1 ≡ c
  unfolding dispatch
  dispatch-left configured event =
      let handled = handle_event-left configured event.name event.data_text in ground arith

  stop_or-left :
      (o : Option StreamEnd) (d : Client V) (later : StreamEnd × Client V)
      → d ≡ c
      → later.1 ≡ c
      → (stop_or lib o d later).1 ≡ c
  stop_or-left none d later h k = k
  stop_or-left (some e) d later h k = h

  consume_lines-left :
      (configured : ℤ) (lines : List Text) (event : SseEvent)
      → (consume_lines lib configured revision lines event c).1 ≡ c
  unfolding consume_lines
  consume_lines-left configured [] event = refl
  consume_lines-left configured (line ∷ lines) event = elim (Bool-cases (is_empty line)) [
    | inl blank ↦
        let same_client = dispatch-left configured event in
        simp (blank, same_client)
          (stop_or-left (dispatch lib configured revision event c).0 c _ refl
            (consume_lines-left configured lines (reset event)))
    | inr text ↦ simp text (
        stop_or-left (appended lib event (append_line line event)).0 c _ refl
          (consume_lines-left configured lines (appended lib event (append_line line event)).1))
  ]

-- Whatever a stream delivers and however it ends, if the client's context changed after the stream's
-- request, the stream leaves the client as it is.
pub consume_stream-left :
    {F V : Type 0} (lib : StreamLibrary F V) (configured : ℤ) (revision : ℕ) (lines : List Text)
    (c : Client V)
    → c.context_revision ≢ revision
    → (consume_stream lib configured revision lines c).1 ≡ c
unfolding consume_stream
consume_stream-left lib configured revision lines c h =
    consume_lines-left lib revision c (ground arith) configured lines empty_event
