-- ===== src/Utils/Strings.antt =====
-- utils/strings.go: TruncateString, MaskString, EllipsisMiddle, PadLeft and PadRight. The first, the
-- third and the last two cut and measure bytes; MaskString is over the runes that its text decodes to.
use fit_go.Base.{
  ℕ, zero, suc, ◌-◌, ◌/◌, List, [], ◌∷◌, ◌++◌, if◌then◌else◌, ltb, leb, Text, codes, length, take,
  drop, ℤ, pos, negsuc, is_empty, trim_space,
}

-- strings.Repeat, of a text.
unfoldable pub repeat : Text → ℕ → Text
repeat t zero = []
repeat t (suc n) = t ++ repeat t n

unfoldable pub truncate_to : Text → ℕ → Text → Text
truncate_to s max suffix =
    if leb max (length suffix) then take max suffix else take (max - length suffix) s ++ suffix

-- TruncateString
unfoldable pub truncate_string : Text → ℤ → Text → Text
truncate_string s (negsuc n) suffix = s
truncate_string s (pos max) suffix =
    if leb max 0 then s else if leb (length s) max then s else truncate_to s max suffix

-- Coalesce
unfoldable pub coalesce : List Text → Text
coalesce [] = []
coalesce (v ∷ vs) = if is_empty (trim_space v) then coalesce vs else v

-- MaskString
unfoldable pub mask_string : Text → ℕ → Text
mask_string runes mask =
    if leb (length runes) 2
    then repeat (mask ∷ []) (length runes)
    else take 1 runes ++ (repeat (mask ∷ []) (length runes - 2) ++ drop (length runes - 1) runes)

abbrev pub half : ℕ → ℕ
half max = (max - 3) / 2

-- The end of EllipsisMiddle, for a limit of at least five.
unfoldable pub ellipsis_to : Text → ℕ → Text
ellipsis_to s max = take (half max) s ++ (codes "..." ++ drop (length s - (max - 3 - half max)) s)

-- EllipsisMiddle
unfoldable pub ellipsis_middle : Text → ℤ → Text
ellipsis_middle s (negsuc n) = s
ellipsis_middle s (pos max) =
    if leb max 0
    then s
    else if leb (length s) max
    then s
    else if ltb max 5
    then take max s
    else ellipsis_to s max

-- PadLeft and PadRight, for a pad given by its bytes.
abbrev pub missing : Text → ℤ → ℕ
missing s (negsuc n) = 0
missing s (pos size) = size - length s

unfoldable pub pad_left : Text → ℤ → Text → Text
pad_left s size pad = repeat pad (missing s size) ++ s

unfoldable pub pad_right : Text → ℤ → Text → Text
pad_right s size pad = s ++ repeat pad (missing s size)
