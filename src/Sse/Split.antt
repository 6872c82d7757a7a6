-- ===== src/Sse/Split.antt =====
-- feature/sse.go: the split function of newFeatureSSEScanner, on the bytes that are buffered.
use fit_go.Base.{
  ℕ, suc, ◌+◌, Bool, true, false, not, ◌&&◌, [], ◌∷◌, Option, none, some, if◌then◌else◌, ◌==◌, Text,
  length,
}

-- The variables that the closure keeps between calls.
pub record Splitter : Type 0 where
  pub leading : Bool
  pub skip_newline : Bool

abbrev pub new_splitter : Splitter
new_splitter = record { leading = true; skip_newline = false }

-- What a call leaves: the variables, how far the scanner advances, and a line, where one is complete.
pub record Step : Type 0 where
  pub next : Splitter
  pub advance : ℕ
  pub line : Option Text

-- bytes.HasPrefix(bom, data), for data of at most two bytes, or none.
unfoldable pub is_partial_mark : Text → Bool
is_partial_mark [] = true
is_partial_mark (a ∷ []) = a == 0xef
is_partial_mark (a ∷ b ∷ []) = a == 0xef && b == 0xbb
is_partial_mark (a ∷ b ∷ c ∷ rest) = false

-- bytes.HasPrefix(data, bom)
unfoldable pub has_mark : Text → Bool
has_mark (a ∷ b ∷ c ∷ rest) = a == 0xef && b == 0xbb && c == 0xbf
has_mark short = false

abbrev pub after_mark : Text → Text
after_mark (a ∷ b ∷ c ∷ rest) = rest
after_mark short = short

abbrev pub starts_line : Text → Bool
starts_line [] = false
starts_line (c ∷ cs) = c == 10

abbrev pub rest_of : Text → Text
rest_of [] = []
rest_of (c ∷ cs) = cs

abbrev pub before : ℕ → Option (Text × Bool) → Option (Text × Bool)
before c none = none
before c (some (line, return)) = some (c ∷ line, return)

-- The loop over the data: the line before the first \n or \r, and whether \r ended it.
unfoldable pub find_line : Text → Option (Text × Bool)
find_line [] = none
find_line (c ∷ cs) =
    let more = find_line cs in
    if c == 10 then some ([], false) else if c == 13 then some ([], true) else before c more

-- The end of the function: a line, the rest at the end of the input, or nothing yet.
abbrev pub finish : Bool → ℕ → Text → Bool → Option (Text × Bool) → Step
finish at_end advance buffer skip (some (line, return)) = record {
  next = record { leading = false; skip_newline = if return then true else skip };
  advance = advance + length line + 1;
  line = some line;
}
finish true advance buffer skip none = record {
  next = record { leading = false; skip_newline = skip };
  advance = advance + length buffer;
  line = some buffer;
}
finish false advance buffer skip none = record {
  next = record { leading = false; skip_newline = skip };
  advance = advance;
  line = none;
}

-- Past the byte-order mark and a skipped newline: no line where nothing is left.
abbrev pub scan : Bool → ℕ → Bool → Text → Step
scan at_end advance skip [] = record {
  next = record { leading = false; skip_newline = skip };
  advance = advance;
  line = none;
}
scan at_end advance skip (c ∷ cs) = finish at_end advance (c ∷ cs) skip (find_line (c ∷ cs))

-- `if skipLF && len(data) > 0`
unfoldable pub past_newline : Bool → ℕ → Bool → Text → Step
past_newline at_end advance skip [] = scan at_end advance skip []
past_newline at_end advance skip (c ∷ cs) =
    if skip
    then if c == 10 then scan at_end (suc advance) false cs else scan at_end advance false (c ∷ cs)
    else scan at_end advance skip (c ∷ cs)

unfoldable pub past_mark : Bool → Bool → Text → Step
past_mark at_end skip buffer =
    if has_mark buffer
    then past_newline at_end 3 skip (after_mark buffer)
    else past_newline at_end 0 skip buffer

-- The split function.
unfoldable pub split : Bool → Splitter → Text → Step
split at_end s [] = record { next = s; advance = 0; line = none }
split at_end s (c ∷ cs) =
    if s.leading
    then if is_partial_mark (c ∷ cs) && not at_end
      then record { next = s; advance = 0; line = none }
      else past_mark at_end s.skip_newline (c ∷ cs)
    else past_newline at_end 0 s.skip_newline (c ∷ cs)
