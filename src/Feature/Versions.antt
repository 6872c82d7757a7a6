-- ===== src/Feature/Versions.antt =====
-- feature/strategy.go: the comparison of semantic versions.
use fit_go.Base.{
  ℕ, ◌≡◌, refl, Bool, true, false, not, ◌||◌, List, Option, none, some, if◌then◌else◌, Text, codes,
  same, get_elem?, split_on, inl, inr, Bool-cases,
}
use fit_go.Feature.Matchers.{Library, StrategyAttribute, listed, attribute_strings, any}

-- 1, 0 and -1 of compareSemanticVersion.
pub data Comparison : Type 0 where
  greater equal less : Comparison

abbrev parsed_part : {F D I : Type 0} → Library F D I → Option Text → Option F
parsed_part lib none = none
parsed_part lib (some t) = lib.parse_float t

module _ {F D I : Type 0} (lib : Library F D I) where
  unfoldable pub semantic_part : List Text → ℕ → Option F
  semantic_part parts index = parsed_part lib (get_elem? parts index)

  -- The switch for one index; equal says that the loop goes on.
  unfoldable pub compare_part : Option F → Option F → Comparison
  compare_part (some l) (some r) =
      if lib.less r l then greater else if lib.less l r then less else equal
  compare_part (some l) none = greater
  compare_part none (some r) = less
  compare_part none none = equal

  abbrev pub then_compare : Comparison → Comparison → Comparison
  then_compare equal next = next
  then_compare greater next = greater
  then_compare less next = less

  unfoldable pub compare_semantic_version : Text → Text → Comparison
  compare_semantic_version left right =
      let compare_at : ℕ → Comparison = λ index.
        compare_part (semantic_part (split_on b'.' left) index)
          (semantic_part (split_on b'.' right) index) in
      then_compare (compare_at 0) (then_compare (compare_at 1) (compare_at 2))

  abbrev is_greater : Comparison → Bool
  is_greater greater = true
  is_greater equal = false
  is_greater less = false

  abbrev is_equal : Comparison → Bool
  is_equal greater = false
  is_equal equal = true
  is_equal less = false

  abbrev is_less : Comparison → Bool
  is_less greater = false
  is_less equal = false
  is_less less = true

  -- The switch in the loop of matchSemanticVersion.
  unfoldable pub version_test : Text → Comparison → Bool
  version_test conditional comparison =
      if same conditional (codes "EQUALS") || same conditional (codes "INCLUDES")
      then is_equal comparison
      else if same conditional (codes "GREATER")
      then is_greater comparison
      else if same conditional (codes "GREATER_EQUALS")
      then not (is_less comparison)
      else if same conditional (codes "LESS")
      then is_less comparison
      else if same conditional (codes "LESS_EQUALS")
      then not (is_greater comparison)
      else if same conditional (codes "NOT_EQUALS") || same conditional (codes "EXCLUDES")
      then not (is_equal comparison)
      else false

  unfoldable pub match_semantic_version : Text → StrategyAttribute → Bool
  match_semantic_version value attribute =
      any
        (λ candidate. version_test attribute.conditional (compare_semantic_version value candidate))
        (attribute_strings (listed attribute.attribute_values))

abbrev pub opposite : Comparison → Comparison
opposite greater = less
opposite equal = equal
opposite less = greater

module _ {F D I : Type 0} (lib : Library F D I)
    (asymmetric : (a b : F) → lib.less a b ≡ true → lib.less b a ≡ false) where
  compare_part-opposite : (l r : Option F) → compare_part lib r l ≡ opposite (compare_part lib l r)
  unfolding compare_part
  compare_part-opposite none none = refl
  compare_part-opposite none (some r) = refl
  compare_part-opposite (some l) none = refl
  compare_part-opposite (some l) (some r) = elim (Bool-cases (lib.less l r)) [
    | inl below ↦ simp (below, asymmetric l r below)
    | inr not_below ↦ elim (Bool-cases (lib.less r l)) [
      | inl above ↦ simp (not_below, above)
      | inr neither ↦ simp (not_below, neither)
    ]
  ]

  then_compare-opposite :
      (a b : Comparison)
      → then_compare lib (opposite a) (opposite b) ≡ opposite (then_compare lib a b)
  then_compare-opposite greater b = refl
  then_compare-opposite equal b = refl
  then_compare-opposite less b = refl

  -- If `<` on floats is asymmetric, then to compare two versions in the other order gives the
  -- opposite result.
  pub compare_semantic_version-opposite :
      (left right : Text)
      → compare_semantic_version lib right left ≡ opposite (compare_semantic_version lib left right)
  unfolding compare_semantic_version
  compare_semantic_version-opposite left right =
      let l : ℕ → Option F = λ index. semantic_part lib (split_on b'.' left) index in
      let r : ℕ → Option F = λ index. semantic_part lib (split_on b'.' right) index in
      simp (
        compare_part-opposite (l 0) (r 0),
        compare_part-opposite (l 1) (r 1),
        compare_part-opposite (l 2) (r 2),
        then_compare-opposite (compare_part lib (l 1) (r 1)) (compare_part lib (l 2) (r 2)),
        then_compare-opposite (compare_part lib (l 0) (r 0))
            (then_compare lib (compare_part lib (l 1) (r 1)) (compare_part lib (l 2) (r 2))),
      )
