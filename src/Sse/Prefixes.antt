-- ===== src/Sse/Prefixes.antt =====
-- A line that the splitter of feature/sse.go finds does not depend on the bytes that arrive later.
use fit_go.Base.{
  ℕ, suc, ◌≡◌, refl, Bool, true, false, [], ◌∷◌, ◌++◌, Option, none, some, Option-cases, ◌==◌, Text,
  arith, Bool-cases, inl, inr,
}
use fit_go.Sse.Split.{
  Splitter, Step, is_partial_mark, has_mark, before, find_line, finish, scan, past_newline,
  past_mark, split,
}

find_line-append :
    (buffer more : Text) (r : Text × Bool)
    → find_line buffer ≡ some r
    → find_line (buffer ++ more) ≡ some r
unfolding find_line
find_line-append [] more r h = absurd (cc)
find_line-append (c ∷ cs) more r h = elim (Bool-cases (c == 10)) [
  | inl newline ↦ rw newline (simp newline at h)
  | inr no_newline ↦ elim (Bool-cases (c == 13)) [
    | inl return ↦ rw (no_newline, return) (simp (no_newline, return) at h)
    | inr other ↦
        rw (no_newline, other)
          (later c (find_line cs) (find_line (cs ++ more)) r (find_line-append cs more)
            (simp (no_newline, other) at h))
  ]
]
  where
    later :
        (c : ℕ) (o p : Option (Text × Bool)) (r : Text × Bool)
        → ((q : Text × Bool) → o ≡ some q → p ≡ some q)
        → before c o ≡ some r
        → before c p ≡ some r
    later c none p r f h = absurd (cc)
    later c (some q) p r f h = rw (f q refl) h

finish-some :
    (at_end other : Bool) (advance : ℕ) (buffer buffer' : Text) (skip : Bool) (r : Text × Bool)
    → finish at_end advance buffer skip (some r) ≡ finish other advance buffer' skip (some r)
finish-some at_end other advance buffer buffer' skip (line, return) = refl

abbrev Found : Step → Text → Type 0
Found step l = step.line ≡ some l

scan-append :
    (at_end : Bool) (advance : ℕ) (skip : Bool) (buffer more l : Text)
    → Found (scan false advance skip buffer) l
    → scan at_end advance skip (buffer ++ more) ≡ scan false advance skip buffer
scan-append at_end advance skip [] more l h = absurd (cc)
scan-append at_end advance skip (c ∷ cs) more l h = elim (Option-cases (find_line (c ∷ cs))) [
  | inl nothing ↦ absurd (lost (simp nothing at h))
  | inr (r, found) ↦
      rw (find_line-append (c ∷ cs) more r found, found)
        (finish-some at_end false advance (c ∷ cs ++ more) (c ∷ cs) skip r)
]
  where
    lost : ◌≡◌ {A = Option Text} none (some l) → ⊥
    lost q = cc

past_newline-append :
    (at_end : Bool) (advance : ℕ) (skip : Bool) (buffer more l : Text)
    → Found (past_newline false advance skip buffer) l
    → past_newline at_end advance skip (buffer ++ more) ≡ past_newline false advance skip buffer
unfolding past_newline
past_newline-append at_end advance skip [] more l h = absurd (cc)
past_newline-append at_end advance false (c ∷ cs) more l h =
    scan-append at_end advance false (c ∷ cs) more l h
past_newline-append at_end advance true (c ∷ cs) more l h = elim (Bool-cases (c == 10)) [
  | inl newline ↦ rw newline (scan-append at_end (suc advance) false cs more l (simp newline at h))
  | inr other ↦ rw other (scan-append at_end advance false (c ∷ cs) more l (simp other at h))
]

-- Bytes that are no beginning of the mark stay without it.
no_mark_one :
    (a : ℕ) (more : Text)
    → is_partial_mark (a ∷ []) ≡ false
    → (is_partial_mark (a ∷ more) ≡ false) × (has_mark (a ∷ more) ≡ false)
unfolding is_partial_mark has_mark
no_mark_one a [] h = (h, refl)
no_mark_one a (b ∷ []) h = (ground arith, refl)
no_mark_one a (b ∷ c ∷ more) h = (refl, ground arith)

no_mark_two :
    (a b : ℕ) (more : Text)
    → is_partial_mark (a ∷ b ∷ []) ≡ false
    → (is_partial_mark (a ∷ b ∷ more) ≡ false) × (has_mark (a ∷ b ∷ more) ≡ false)
unfolding is_partial_mark has_mark
no_mark_two a b [] h = (h, refl)
no_mark_two a b (c ∷ more) h = (refl, ground arith)

short_mark :
    (skip at_end : Bool) (buffer more l : Text)
    → (is_partial_mark (buffer ++ more) ≡ false) × (has_mark (buffer ++ more) ≡ false)
    → has_mark buffer ≡ false
    → Found (past_mark false skip buffer) l
    → past_mark at_end skip (buffer ++ more) ≡ past_mark false skip buffer
unfolding past_mark
short_mark skip at_end buffer more l h k f =
    simp (h.1, k) (past_newline-append at_end 0 skip buffer more l (simp k at f))

long_mark :
    (at_end skip : Bool) (a b c : ℕ) (tail more l : Text)
    → Found (past_mark false skip (a ∷ b ∷ c ∷ tail)) l
    → past_mark at_end skip (a ∷ b ∷ c ∷ (tail ++ more)) ≡ past_mark false skip (a ∷ b ∷ c ∷ tail)
unfolding past_mark
long_mark at_end skip a b c tail more l f =
    let same_mark : has_mark (a ∷ b ∷ c ∷ (tail ++ more)) ≡ has_mark (a ∷ b ∷ c ∷ tail) =
      unfold has_mark in refl in
    elim (Bool-cases (has_mark (a ∷ b ∷ c ∷ tail))) [
      | inl marked ↦
          simp (same_mark, marked)
            (past_newline-append at_end 3 skip tail more l (simp marked at f))
      | inr unmarked ↦
          simp (same_mark, unmarked)
            (past_newline-append at_end 0 skip (a ∷ b ∷ c ∷ tail) more l (simp unmarked at f))
    ]

whole_append :
    (at_end skip : Bool) (a : ℕ) (rest more l : Text)
    → is_partial_mark (a ∷ rest) ≡ false
    → Found (past_mark false skip (a ∷ rest)) l
    → (is_partial_mark (a ∷ rest ++ more) ≡ false)
      × (past_mark at_end skip (a ∷ rest ++ more) ≡ past_mark false skip (a ∷ rest))
whole_append at_end skip a [] more l h f =
    let marks = no_mark_one a more h in
    (marks.0, short_mark skip at_end (a ∷ []) more l marks (unfold has_mark in refl) f)
whole_append at_end skip a (b ∷ []) more l h f =
    let marks = no_mark_two a b more h in
    (marks.0, short_mark skip at_end (a ∷ b ∷ []) more l marks (unfold has_mark in refl) f)
whole_append at_end skip a (b ∷ c ∷ tail) more l h f =
    (unfold is_partial_mark in refl, long_mark at_end skip a b c tail more l f)

-- A line that is complete in the buffered bytes is found as the same line, with the same advance and
-- the same variables, whatever bytes follow them and whether or not the stream has ended.
pub split-append :
    (at_end : Bool) (s : Splitter) (buffer more l : Text)
    → (split false s buffer).line ≡ some l
    → split at_end s (buffer ++ more) ≡ split false s buffer
unfolding split
split-append at_end s [] more l h = absurd (cc)
split-append at_end s (a ∷ rest) more l h = elim (Bool-cases s.leading) [
  | inr later ↦
      simp later (past_newline-append at_end 0 s.skip_newline (a ∷ rest) more l (simp later at h))
  | inl first ↦ elim (Bool-cases (is_partial_mark (a ∷ rest))) [
    | inl partial ↦ absurd (lost (simp (first, partial) at h))
    | inr whole ↦
        let both =
          whole_append at_end s.skip_newline a rest more l whole (simp (first, whole) at h) in
        simp (first, both.0, whole) both.1
  ]
]
  where
    lost : ◌≡◌ {A = Option Text} none (some l) → ⊥
    lost q = cc
