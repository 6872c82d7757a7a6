-- ===== src/Utils/Lengths.antt =====
-- The lengths of what the helpers of utils/strings.go make, and what MaskString reveals.
use fit_go.Base.{
  ℕ, zero, suc, ◌+◌, ◌-◌, ◌≤◌, ◌<◌, ◌≡◌, refl, ap, ◌∙◌, false, [], ◌∷◌, ◌++◌, if◌then◌else◌, ltb,
  leb, Text, length, length-append, take, drop, pos, arith, Bool-cases, inl, inr,
}
use fit_go.Utils.Strings.{
  repeat, truncate_to, truncate_string, mask_string, ellipsis_to, ellipsis_middle, half,
}

length-take : (n : ℕ) (s : Text) → n ≤ length s → length (take n s) ≡ n
length-take zero s h = refl
length-take (suc n) [] h = absurd (omega arith)
length-take (suc n) (c ∷ s) h = ap suc (length-take n s (omega arith))

length-drop : (n : ℕ) (s : Text) → length (drop n s) ≡ length s - n
length-drop zero s = omega arith
length-drop (suc n) [] = omega arith
length-drop (suc n) (c ∷ s) = omega (arith, length-drop n s)

length-truncate_to :
    (s suffix : Text) (max : ℕ) → max < length s → length (truncate_to s max suffix) ≡ max
unfolding truncate_to
length-truncate_to s suffix max h = elim (Bool-cases (leb max (length suffix))) [
  | inl long ↦ rw long (length-take max suffix (ground arith))
  | inr short ↦ rw short (
      length-append (take (max - length suffix) s) suffix
      ∙ rw (length-take (max - length suffix) s (omega arith)) (ground arith))
]

-- For a positive limit, a truncated text has the length of the text, or of the limit where that is less.
pub length-truncate_string :
    (s suffix : Text) (max : ℕ)
    → 0 < max
    → length (truncate_string s (pos max) suffix) ≡ (if leb (length s) max then length s else max)
unfolding truncate_string
length-truncate_string s suffix max h =
    let positive : leb max 0 ≡ false = ground arith in
    elim (Bool-cases (leb (length s) max)) [
      | inl fits ↦ simp (positive, fits) refl
      | inr long ↦ simp (positive, long) (length-truncate_to s suffix max (ground arith))
    ]

length-ellipsis_to :
    (s : Text) (max : ℕ) → 5 ≤ max → max < length s → length (ellipsis_to s max) ≡ max
unfolding ellipsis_to
length-ellipsis_to s max k h =
    length-append (take (half max) s) _
    ∙ rw (length-take (half max) s (omega arith), length-drop (length s - (max - 3 - half max)) s)
        (omega arith)

-- For a positive limit, a text with an ellipsis has the length of the text, or of the limit where that is
-- less.
pub length-ellipsis_middle :
    (s : Text) (max : ℕ)
    → 0 < max
    → length (ellipsis_middle s (pos max)) ≡ (if leb (length s) max then length s else max)
unfolding ellipsis_middle
length-ellipsis_middle s max h =
    let positive : leb max 0 ≡ false = ground arith in
    elim (Bool-cases (leb (length s) max)) [
      | inl fits ↦ simp (positive, fits) refl
      | inr long ↦ elim (Bool-cases (ltb max 5)) [
        | inl small ↦ simp (positive, long, small) (length-take max s (ground arith))
        | inr large ↦
            simp (positive, long, large) (length-ellipsis_to s max (ground arith) (ground arith))
      ]
    ]

drop-last : (a : ℕ) (s : Text) (z : ℕ) → drop (length (a ∷ s)) (a ∷ s ++ z ∷ []) ≡ z ∷ []
drop-last a [] z = refl
drop-last a (b ∷ s) z = drop-last b s z

mask_ends :
    (a z mask : ℕ) (s : Text)
    → mask_string (a ∷ s ++ z ∷ []) mask ≡ (
        if leb (length s) 0
        then mask ∷ mask ∷ []
        else a ∷ (repeat (mask ∷ []) (length s) ++ z ∷ []))
unfolding mask_string
mask_ends a z mask [] = unfold repeat in refl
mask_ends a z mask (b ∷ s) =
    let runes = a ∷ b ∷ s ++ z ∷ [] in
    let size : length runes ≡ length (b ∷ s) + 2 = omega (arith, length-append s (z ∷ [])) in
    let long : leb (length runes) 2 ≡ false = ground arith in
    let some : leb (length (b ∷ s)) 0 ≡ false = ground arith in
    let middle : length runes - 2 ≡ length (b ∷ s) = omega arith in
    let last : length runes - 1 ≡ length (a ∷ b ∷ s) = omega arith in
    simp (long, some, middle, last)
      (ap (λ l. a ∷ (repeat (mask ∷ []) (length (b ∷ s)) ++ l)) (drop-last a (b ∷ s) z))

-- A masked text shows nothing of what stands between its first and its last rune but its length: two
-- texts that differ only there, by as many runes, are masked alike.
pub mask_string-hides :
    (a z mask : ℕ) (s t : Text)
    → length s ≡ length t
    → mask_string (a ∷ s ++ z ∷ []) mask ≡ mask_string (a ∷ t ++ z ∷ []) mask
mask_string-hides a z mask s t h = rw (mask_ends a z mask s, mask_ends a z mask t, h)
