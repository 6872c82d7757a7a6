-- ===== src/Resp/Moves.antt =====
-- Reads of redis/ioredis_resp.go: what was taken from the input and what was charged to the budget.
use fit_go.Base.{
  take-append-drop, ℕ, zero, suc, ◌+◌, ◌≤◌, ◌≡◌, refl, sym, ap, ◌∙◌, Bool, true, false, [], ◌∷◌,
  ◌++◌, append_assoc, Result, ok, err, if◌then◌else◌, ltb, leb, ◌==◌, Text, length, length-append,
  subst, arith, Bool-cases, inl, inr, take,
}
use fit_go.Resp.Decode.{
  Decoder, DecodeError, Read, ◌>>=◌, pure, fail, consume_bytes, consume_value, read_byte,
  split_line, continue, first_byte, max_line_bytes, take_line, take_bytes,
}

-- From `d` to `d'` a text was read, `bytes` bytes were charged and `values` values.
pub record Moved (taken : Text) (bytes values : ℕ) (d d' : Decoder) : Type 0 where
  pub input : d.input ≡ taken ++ d'.input
  pub charged : d.bytes_remaining ≡ bytes + d'.bytes_remaining
  pub counted : d.values_remaining ≡ values + d'.values_remaining

-- What holds of a read that succeeds.
abbrev pub IfOk : {A : Type 0} → (A → Decoder → Type 0) → Result DecodeError (A × Decoder) → Type 0
IfOk P (ok (a, d)) = P a d
IfOk P (err e) = Unit

pub IfOk-ok :
    {A : Type 0} (P : A → Decoder → Type 0) (x : Result DecodeError (A × Decoder)) (a : A)
    (d : Decoder)
    → IfOk P x
    → x ≡ ok (a, d)
    → P a d
IfOk-ok P x a d h e = subst (IfOk P) e h

pub continue-IfOk :
    {A B : Type 0} (P : A → Decoder → Type 0) (Q : B → Decoder → Type 0)
    (x : Result DecodeError (A × Decoder)) (f : A → Read B)
    → IfOk P x
    → ((a : A) (d' : Decoder) → P a d' → IfOk Q (f a d'))
    → IfOk Q (continue x f)
continue-IfOk P Q (ok (a, d')) f h k = k a d' h
continue-IfOk P Q (err e) f h k = tt

pub bind-IfOk :
    {A B : Type 0} (P : A → Decoder → Type 0) (Q : B → Decoder → Type 0) (m : Read A)
    (f : A → Read B) (d : Decoder)
    → IfOk P (m d)
    → ((a : A) (d' : Decoder) → P a d' → IfOk Q (f a d'))
    → IfOk Q ((m >>= f) d)
unfolding ◌>>=◌
bind-IfOk P Q m f d h k = continue-IfOk P Q (m d) f h k

-- A test before a read.
pub if-IfOk :
    {A : Type 0} (P : A → Decoder → Type 0) (b : Bool) (x y : Result DecodeError (A × Decoder))
    → (b ≡ true → IfOk P x)
    → (b ≡ false → IfOk P y)
    → IfOk P (if b then x else y)
if-IfOk P true x y h k = h refl
if-IfOk P false x y h k = k refl

pub then-Moved :
    {t u : Text} {b c v w : ℕ} {d e f : Decoder}
    → Moved t b v d e
    → Moved u c w e f
    → Moved (t ++ u) (b + c) (v + w) d f
then-Moved {t} {u} p q = record {
  input = p.input ∙ ap (λ l. t ++ l) q.input ∙ sym (append_assoc t u _);
  charged = omega arith;
  counted = omega arith;
}

pub split_line-parts : (s : Text) → s ≡ (split_line s).0 ++ (split_line s).1
unfolding split_line
split_line-parts [] = refl
split_line-parts (b ∷ bs) = elim (Bool-cases (b == 10)) [
  | inl newline ↦ let is_newline : b ≡ 10 = ground arith in rw is_newline refl
  | inr other ↦ rw other (ap (λ l. b ∷ l) (split_line-parts bs))
]

pub length-take : (n : ℕ) (s : Text) → n ≤ length s → length (take n s) ≡ n
length-take zero s h = refl
length-take (suc n) [] h = absurd (omega arith)
length-take (suc n) (c ∷ s) h = ap suc (length-take n s (omega arith))

pub consume_bytes-Moved :
    (count : ℕ) (d : Decoder) → IfOk (λ u d'. Moved [] count 0 d d') (consume_bytes count d)
unfolding consume_bytes
consume_bytes-Moved count d =
    if-IfOk (λ u d'. Moved [] count 0 d d') (ltb d.bytes_remaining count) _ _ (λ h. tt)
      (λ h. record { input = refl; charged = ground arith; counted = omega arith })

pub consume_value-Moved : (d : Decoder) → IfOk (λ u d'. Moved [] 0 1 d d') (consume_value d)
unfolding consume_value
consume_value-Moved d =
    if-IfOk (λ u d'. Moved [] 0 1 d d') (leb d.values_remaining 0) _ _ (λ h. tt)
      (λ h. record { input = refl; charged = omega arith; counted = ground arith })

pub first_byte-Moved :
    (s : Text) (d : Decoder) → d.input ≡ s → IfOk (λ b d'. Moved (b ∷ []) 0 0 d d') (first_byte s d)
first_byte-Moved [] d h = tt
first_byte-Moved (b ∷ bs) d h = record { input = h; charged = omega arith; counted = omega arith }

pub read_byte-Moved : (d : Decoder) → IfOk (λ b d'. Moved (b ∷ []) 0 0 d d') (read_byte d)
unfolding read_byte
read_byte-Moved d = first_byte-Moved d.input d refl

pub take_line-Moved : (d : Decoder) → IfOk (λ line d'. Moved line 0 0 d d') (take_line d)
unfolding take_line
take_line-Moved d =
    let (line, rest, found) = split_line d.input in
    if-IfOk (λ line d'. Moved line 0 0 d d') (ltb max_line_bytes (length line)) _ _ (λ h. tt)
      λ h.
        if-IfOk (λ line d'. Moved line 0 0 d d') found _ _
          (λ k. record {
            input = split_line-parts d.input;
            charged = omega arith;
            counted = omega arith;
          })
          (λ k. tt)

pub take_bytes-Moved :
    (count : ℕ) (d : Decoder)
    → IfOk (λ t d'. Moved t 0 0 d d' × (length t ≡ count)) (take_bytes count d)
unfolding take_bytes
take_bytes-Moved count d =
    if-IfOk (λ t d'. Moved t 0 0 d d' × (length t ≡ count)) (ltb (length d.input) count) _ _
      (λ h. tt)
      (λ h. (
        record {
          input = sym (take-append-drop count d.input);
          charged = omega arith;
          counted = omega arith;
        },
        length-take count d.input (ground arith),
      ))

-- From `d` to `d'` a text was read and every byte of it was charged, with `values` values.
abbrev pub Charged : ℕ → Decoder → Decoder → Type 0
Charged values d d' = (taken : Text) × Moved taken (length taken) values d d'

pub then-Charged : {v w : ℕ} {d e f : Decoder} → Charged v d e → Charged w e f → Charged (v + w) d f
then-Charged (t, p) (u, q) = (t ++ u, rw (length-append t u) (then-Moved p q))

pub same-Charged : {v w : ℕ} {d e : Decoder} → v ≡ w → Charged v d e → Charged w d e
same-Charged {d} {e} h p = subst (λ v. Charged v d e) h p

-- Reads that leave the decoder as it was.
pub result-Charged :
    {A : Type 0} (w : A → ℕ) (a : A) (d : Decoder)
    → w a ≡ 0
    → IfOk (λ a d'. Charged (w a) d d') (pure a d)
unfolding pure
result-Charged w a d h =
    ([], record { input = refl; charged = omega arith; counted = omega (arith, h) })

pub pure-Charged : {A : Type 0} (a : A) (d : Decoder) → IfOk (λ a d'. Charged 0 d d') (pure a d)
unfolding pure
pure-Charged a d = ([], record { input = refl; charged = omega arith; counted = omega arith })

-- A read of one of two kinds.
pub branch-IfOk :
    {A : Type 0} (P : A → Decoder → Type 0) (b : Bool) (m n : Read A) (d : Decoder)
    → IfOk P (m d)
    → IfOk P (n d)
    → IfOk P ((if b then m else n) d)
branch-IfOk P true m n d h k = h
branch-IfOk P false m n d h k = k

pub map-IfOk :
    {A : Type 0} (P Q : A → Decoder → Type 0) (x : Result DecodeError (A × Decoder))
    → ((a : A) (d : Decoder) → P a d → Q a d)
    → IfOk P x
    → IfOk Q x
map-IfOk P Q (ok (a, d)) f h = f a d h
map-IfOk P Q (err e) f h = tt

-- A read that charges `v` values, and then one whose result says how many.
pub chain-Charged :
    {A B : Type 0} (v : ℕ) (w : B → ℕ) (m : Read A) (f : A → Read B) (d : Decoder)
    → IfOk (λ a d1. Charged v d d1) (m d)
    → ((a : A) (d1 : Decoder) → IfOk (λ b d2. Charged (w b) d1 d2) (f a d1))
    → IfOk (λ b d2. Charged (v + w b) d d2) ((m >>= f) d)
chain-Charged v w m f d h k =
    bind-IfOk (λ a d1. Charged v d d1) _ m f d h
      λ a d1 p.
        map-IfOk (λ b d2. Charged (w b) d1 d2) _ (f a d1) (λ b d2 q. then-Charged p q) (k a d1)

pub after-Charged :
    {A B : Type 0} (w : B → ℕ) (m : Read A) (f : A → Read B) (d : Decoder)
    → IfOk (λ a d1. Charged 0 d d1) (m d)
    → ((a : A) (d1 : Decoder) → IfOk (λ b d2. Charged (w b) d1 d2) (f a d1))
    → IfOk (λ b d2. Charged (w b) d d2) ((m >>= f) d)
after-Charged w m f d h k =
    map-IfOk (λ b d2. Charged (0 + w b) d d2) _ ((m >>= f) d)
      (λ b d2 p. same-Charged (omega arith) p) (chain-Charged 0 w m f d h k)

pub fail-Charged :
    {A : Type 0} (w : A → ℕ) (e : DecodeError) (d : Decoder)
    → IfOk (λ a d'. Charged (w a) d d') (fail {A = A} e d)
unfolding fail
fail-Charged w e d = tt
