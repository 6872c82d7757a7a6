-- ===== src/Feature/Waits.antt =====
-- feature/flags.go: how long the stream loop waits at most, from the errors that a stream ends with.
use fit_go.Base.{
  ℕ, zero, suc, ◌≤◌, ◌≡◌, refl, false, inl, inr, ◌-◌, Option, none, some, ltb, ℤ, pos, negsuc,
  Bool-cases, arith,
}
use fit_go.Feature.Backoff.{
  StreamError, stale, http_error, other_error, lesser, greater, with_jitter, grown_delay,
  double_delay, max_reconnect_interval, retry_delay, retry_delay_for_attempt, lesser-le,
  with_hint-le, le_through,
}
use fit_go.Feature.Stream.{
  StreamLibrary, JsonValue, edge_stale, edge_stale_seconds, stale_delay, stale_end, config_end,
}

module _ {F V : Type 0} (lib : StreamLibrary F V) (configured : ℤ) where
  -- A stale error comes from a config event, with the delay that the event's end carries.
  abbrev pub IsRaised : StreamError → Type 0
  IsRaised (stale delay) =
      (raw : Option (Option (JsonValue F))) × (d : ℕ) × (config_end lib configured raw
        ≡ some (edge_stale d))
      × (delay ≡ pos d)
  IsRaised (http_error hint) = Unit
  IsRaised other_error = Unit

  abbrev pub longest_wait : StreamError → ℕ
  longest_wait (stale delay) = max_reconnect_interval
  longest_wait (http_error hint) =
      greater max_reconnect_interval (retry_delay configured other_error)
  longest_wait other_error = greater max_reconnect_interval (retry_delay configured other_error)

  lesser_positive : (a b : ℕ) → 1 ≤ a → 1 ≤ b → 1 ≤ lesser a b
  lesser_positive a b h k = ground arith

  retry_delay-positive : (c : ℤ) → 1 ≤ retry_delay c other_error
  unfolding retry_delay
  retry_delay-positive (pos zero) = omega arith
  retry_delay-positive (pos (suc n)) = omega arith
  retry_delay-positive (negsuc n) = omega arith

  stale_delay-bounds :
      ((x : F) → lib.over_cap x ≡ false → lib.nanoseconds x ≤ max_reconnect_interval)
      → (x : F)
      → (1 ≤ stale_delay lib configured x) × (stale_delay lib configured x ≤ max_reconnect_interval)
  unfolding stale_delay
  stale_delay-bounds cap x =
      let low = retry_delay configured other_error in
      let some_wait : 1 ≤ lesser low max_reconnect_interval =
        lesser_positive low max_reconnect_interval (retry_delay-positive configured)
          (omega arith) in
      let short : lesser low max_reconnect_interval ≤ max_reconnect_interval =
        lesser-le low max_reconnect_interval in
      elim (Bool-cases (lib.over_cap x)) [
        | inl over ↦ simp over (omega arith, omega arith)
        | inr under ↦
            let fits = cap x under in
            elim (Bool-cases (ltb (lib.nanoseconds x) (lesser low max_reconnect_interval))) [
              | inl early ↦ simp (under, early) (some_wait, short)
              | inr late ↦ simp (under, late) (ground arith, fits)
            ]
      ]

  stale_end-inversion :
      (o : Option (Option F)) (d : ℕ)
      → stale_end lib configured o ≡ some (edge_stale d)
      → (x : F) × (d ≡ stale_delay lib configured x)
  stale_end-inversion none d h = absurd (cc)
  stale_end-inversion (some none) d h = absurd (cc)
  stale_end-inversion (some (some x)) d h = (x, cc)

  config_end-inversion :
      (o : Option (Option (JsonValue F))) (d : ℕ)
      → config_end lib configured o ≡ some (edge_stale d)
      → (x : F) × (d ≡ stale_delay lib configured x)
  unfolding config_end
  config_end-inversion none d h = absurd (cc)
  config_end-inversion (some none) d h = absurd (cc)
  config_end-inversion (some (some raw)) d h = stale_end-inversion (edge_stale_seconds lib raw) d h

  positive_delay :
      (d : ℕ) (jitter : ℕ → ℤ) (attempt : ℕ)
      → 1 ≤ d
      → retry_delay_for_attempt configured jitter (stale (pos d)) attempt ≡ d
  unfolding retry_delay_for_attempt retry_delay
  positive_delay zero jitter attempt h = absurd (omega arith)
  positive_delay (suc n) jitter attempt h = refl

  -- For each of the three kinds of error that the loop tells apart, a stale one with the delay that
  -- the end of its config event carries: if the jitter does not make a delay longer, and a number of
  -- seconds below the cap of 30 converts to at most 30 seconds, then the wait before any attempt is at
  -- most 30 seconds, or the configured base delay where that is more; and after a stale error it is at
  -- most 30 seconds.
  pub retry_delay_for_attempt-bounded :
      (jitter : ℕ → ℤ) (e : StreamError) (attempt : ℕ)
      → ((d : ℕ) → with_jitter jitter d ≤ d)
      → ((x : F) → lib.over_cap x ≡ false → lib.nanoseconds x ≤ max_reconnect_interval)
      → IsRaised e
      → retry_delay_for_attempt configured jitter e attempt ≤ longest_wait e
  retry_delay_for_attempt-bounded jitter (stale delay) attempt h cap (raw, d, ended, same) =
      let (x, computed) = config_end-inversion raw d ended in
      let (low, high) = stale_delay-bounds cap x in
      rw (same, computed, positive_delay (stale_delay lib configured x) jitter attempt low) high
  retry_delay_for_attempt-bounded jitter other_error attempt h cap raised =
      unfold retry_delay_for_attempt in
      let base = retry_delay configured other_error in
      let ceiling = greater max_reconnect_interval base in
      le_through _ (grown_delay attempt base) ceiling (h (grown_delay attempt base))
        (lesser-le (double_delay (attempt - 1) ceiling base) ceiling)
  retry_delay_for_attempt-bounded jitter (http_error hint) attempt h cap raised =
      unfold retry_delay_for_attempt retry_delay in
      let base = retry_delay configured other_error in
      let ceiling = greater max_reconnect_interval base in
      with_hint-le ceiling (with_jitter jitter (grown_delay attempt base)) hint (
        le_through _ (grown_delay attempt base) ceiling (h (grown_delay attempt base))
          (lesser-le (double_delay (attempt - 1) ceiling base) ceiling))
