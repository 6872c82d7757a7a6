-- ===== src/Resp/Budgets.antt =====
-- The decode budget of redis/ioredis_resp.go: for each value that is read, exactly the bytes that it took
-- from the input and exactly its values were charged.
use fit_go.Base.{
  ℕ, zero, suc, ◌+◌, ◌-◌, ◌≡◌, refl, sym, ap, ◌∙◌, [], ◌∷◌, ◌++◌, append_assoc, Result, ok, err,
  ltb, ◌==◌, Text, length, ℤ, pos, negsuc, parse_int, NumError, length-append, arith, take, drop,
  same, not, ◌||◌,
}
use fit_go.Resp.Decode.{
  new_decoder, decode, max_aggregate_bytes, max_values, line_terminator, bulk_terminator,
  bulk_limit, max_bulk_bytes, max_array_elements, Reply, text, error, integer, null, array, Replies,
  nil, cons, Decoder, DecodeError, Read, pure, fail, consume_bytes, consume_value, read_byte,
  take_line, without_crlf, read_line, number_or, take_bytes, read_payload, bulk_of, read_bulk,
  read_many, read_elements, array_of, read_array, read_integer, read_prefixed, read_value,
}
-- The values of a reply, itself included.
use fit_go.Resp.Moves.{
  IfOk-ok, Moved, IfOk, Charged, bind-IfOk, if-IfOk, consume_bytes-Moved, consume_value-Moved,
  read_byte-Moved, take_line-Moved, take_bytes-Moved, then-Charged, same-Charged, result-Charged,
  pure-Charged, branch-IfOk, map-IfOk, after-Charged, fail-Charged,
}

-- The values of a reply, itself included.
unfoldable mutual
  pub size : Reply → ℕ
  size (text t) = 1
  size (error t) = 1
  size (integer n) = 1
  size null = 1
  size (array rs) = suc (sizes rs)

  pub sizes : Replies → ℕ
  sizes nil = 0
  sizes (cons r rs) = size r + sizes rs

without_crlf-Charged :
    (line : Text) (d : Decoder) → IfOk (λ a d'. Charged 0 d d') (without_crlf line d)
unfolding without_crlf
without_crlf-Charged line d =
    branch-IfOk (λ (a : Text) d'. Charged 0 d d')
      (ltb (length line) 2 || not (same (drop (length line - 2) line) (13 ∷ 10 ∷ [])))
      (fail line_terminator) (pure (take (length line - 2) line)) d
      (fail-Charged (λ a. 0) line_terminator d) (pure-Charged (take (length line - 2) line) d)

-- A text that was read and then charged, or the reverse.
paid :
    {t : Text} {c v : ℕ} {d e f : Decoder}
    → Moved t 0 0 d e
    → Moved [] c v e f
    → length t ≡ c
    → Charged v d f
paid {t} {c} p q h = (
  t,
  record {
    input = p.input ∙ ap (λ l. t ++ l) q.input;
    charged = omega (arith, p.charged, q.charged, h);
    counted = omega (arith, p.counted, q.counted);
  },
)

read_line-Charged : (d : Decoder) → IfOk (λ line d'. Charged 0 d d') (read_line d)
unfolding read_line
read_line-Charged d =
    bind-IfOk (λ line d1. Moved line 0 0 d d1) _ take_line _ d (take_line-Moved d)
      λ line d1 p.
        bind-IfOk (λ u d2. Moved [] (length line) 0 d1 d2) _ (consume_bytes (length line)) _ d1
          (consume_bytes-Moved (length line) d1)
          λ u d2 q.
            map-IfOk (λ a d3. Charged 0 d2 d3) _ (without_crlf line d2)
              (λ a d3 c. same-Charged (omega arith) (then-Charged (paid p q refl) c))
              (without_crlf-Charged line d2)

number_or-Charged :
    (e : DecodeError) (x : Result NumError ℤ) (d : Decoder)
    → IfOk (λ a d'. Charged 0 d d') (number_or e x d)
unfolding fail
number_or-Charged e (ok n) d = pure-Charged n d
number_or-Charged e (err x) d = tt

-- The values inside a reply.
abbrev inner : Reply → ℕ
inner (array rs) = sizes rs
inner (text t) = 0
inner (error t) = 0
inner (integer n) = 0
inner null = 0

size-inner : (r : Reply) → 1 + inner r ≡ size r
unfolding size
size-inner (array rs) = omega arith
size-inner (text t) = refl
size-inner (error t) = refl
size-inner (integer n) = refl
size-inner null = refl

Reads : (Read Reply) → Type 0
Reads m = (d : Decoder) → IfOk (λ r d'. Charged (inner r) d d') (m d)

payload_paid :
    {t u : Text} {c : ℕ} {d e f g : Decoder}
    → Moved [] (c + 2) 0 d e
    → Moved t 0 0 e f
    → Moved u 0 0 f g
    → length t ≡ c
    → length u ≡ 2
    → Charged 0 d g
payload_paid {t} {u} p q r h k = (
  t ++ u,
  record {
    input = p.input ∙ q.input ∙ ap (λ l. t ++ l) r.input ∙ sym (append_assoc t u _);
    charged = omega (arith, p.charged, q.charged, r.charged, h, k, length-append t u);
    counted = omega (arith, p.counted, q.counted, r.counted);
  },
)

paid_text :
    (t : Text) {d : Decoder} (g : Decoder)
    → Charged 0 d g
    → IfOk (λ r d'. Charged (inner r) d d') (pure (text t) g)
unfolding pure
paid_text t g p = p

fail_from :
    (d : Decoder) (e : DecodeError) (g : Decoder) → IfOk (λ r d'. Charged (inner r) d d') (fail e g)
unfolding fail
fail_from d e g = tt

read_payload-Charged :
    (count : ℕ) (d : Decoder) → IfOk (λ r d'. Charged (inner r) d d') (read_payload count d)
unfolding read_payload
read_payload-Charged count d =
    bind-IfOk (λ u d1. Moved [] (count + 2) 0 d d1) _ (consume_bytes (count + 2)) _ d
      (consume_bytes-Moved (count + 2) d)
      λ u d1 p. bind-IfOk _ _ (take_bytes count) _ d1 (take_bytes-Moved count d1) λ payload d2 q.
        bind-IfOk _ _ (take_bytes 2) _ d2 (take_bytes-Moved 2 d2) λ terminator d3 r.
          branch-IfOk (λ r d'. Charged (inner r) d d') (same terminator (13 ∷ 10 ∷ []))
            (pure (text payload)) (fail bulk_terminator) d3
            (paid_text payload d3 (payload_paid p q.0 r.0 q.1 r.1)) (fail_from d bulk_terminator d3)

bulk_of-Charged : (n : ℤ) (d : Decoder) → IfOk (λ r d'. Charged (inner r) d d') (bulk_of n d)
bulk_of-Charged (pos count) d =
    branch-IfOk (λ r d'. Charged (inner r) d d') (ltb max_bulk_bytes count) (fail bulk_limit)
      (read_payload count) d (fail-Charged inner bulk_limit d) (read_payload-Charged count d)
bulk_of-Charged (negsuc zero) d = result-Charged inner null d refl
bulk_of-Charged (negsuc (suc n)) d = fail-Charged inner _ d

read_bulk-Charged : (d : Decoder) → IfOk (λ r d'. Charged (inner r) d d') (read_bulk d)
unfolding read_bulk
read_bulk-Charged d = after-Charged inner read_line _ d (read_line-Charged d) λ line d1.
    after-Charged inner (number_or _ (parse_int line)) bulk_of d1
      (number_or-Charged _ (parse_int line) d1) λ n d2. bulk_of-Charged n d2

read_integer-Charged : (d : Decoder) → IfOk (λ r d'. Charged (inner r) d d') (read_integer d)
unfolding read_integer
read_integer-Charged d = after-Charged inner read_line _ d (read_line-Charged d) λ line d1.
    after-Charged inner (number_or _ (parse_int line)) _ d1
      (number_or-Charged _ (parse_int line) d1) λ n d2. result-Charged inner (integer n) d2 refl

abbrev ReadsSize : Read Reply → Type 0
ReadsSize one = (d : Decoder) → IfOk (λ r d'. Charged (size r) d d') (one d)

read_many-Charged :
    (one : Read Reply) (count : ℕ) (d : Decoder)
    → ReadsSize one
    → IfOk (λ rs d'. Charged (sizes rs) d d') (read_many one count d)
unfolding read_many sizes pure
read_many-Charged one zero d h = result-Charged sizes nil d refl
read_many-Charged one (suc count) d h = bind-IfOk _ _ one _ d (h d) λ value d1 p.
    bind-IfOk _ _ (read_many one count) _ d1 (read_many-Charged one count d1 h)
      λ values d2 q. then-Charged p q

array_of-Charged :
    (one : Read Reply) (n : ℤ) (d : Decoder)
    → ReadsSize one
    → IfOk (λ r d'. Charged (inner r) d d') (array_of one n d)
unfolding read_elements pure
array_of-Charged one (pos count) d h =
    if-IfOk (λ r d'. Charged (inner r) d d') (ltb max_array_elements count) _ _ (λ k. tt)
      λ k.
        if-IfOk (λ r d'. Charged (inner r) d d') (ltb d.values_remaining count) _ _ (λ k. tt)
          λ k.
            bind-IfOk _ _ (read_many one count) _ d (read_many-Charged one count d h)
              λ values d1 p. p
array_of-Charged one (negsuc zero) d h = result-Charged inner null d refl
array_of-Charged one (negsuc (suc n)) d h = fail-Charged inner _ d

read_array-Charged :
    (one : Read Reply) (d : Decoder)
    → ReadsSize one
    → IfOk (λ r d'. Charged (inner r) d d') (read_array one d)
unfolding read_array
read_array-Charged one d h = after-Charged inner read_line _ d (read_line-Charged d) λ line d1.
    after-Charged inner (number_or _ (parse_int line)) _ d1
      (number_or-Charged _ (parse_int line) d1) λ n d2. array_of-Charged one n d2 h

read_prefixed-Charged :
    (one : Read Reply) (prefix : ℕ) (d : Decoder)
    → ReadsSize one
    → IfOk (λ r d'. Charged (inner r) d d') (read_prefixed one prefix d)
unfolding read_prefixed
read_prefixed-Charged one prefix d h =
    let P : Reply → Decoder → Type 0 = λ r d'. Charged (inner r) d d' in
    branch-IfOk P (prefix == b'+') _ _ d
      (after-Charged inner read_line _ d (read_line-Charged d)
        λ line d1. result-Charged inner (text line) d1 refl)
      (branch-IfOk P (prefix == b'-') _ _ d
        (after-Charged inner read_line _ d (read_line-Charged d)
          λ line d1. result-Charged inner (error line) d1 refl)
        (branch-IfOk P (prefix == b':') _ _ d (read_integer-Charged d) (
          branch-IfOk P (prefix == b'$') _ _ d (read_bulk-Charged d) (
            branch-IfOk P (prefix == b'*') _ _ d (read_array-Charged one d h)
              (fail-Charged inner _ d)))))

-- Where a value was read, exactly the bytes that it took from the input were charged to the budget, and
-- exactly its values.
pub read_value-Charged :
    (levels : ℕ) (d : Decoder) → IfOk (λ r d'. Charged (size r) d d') (read_value levels d)
unfolding read_value
read_value-Charged zero d = fail-Charged size _ d
read_value-Charged (suc levels) d =
    bind-IfOk _ _ consume_value _ d (consume_value-Moved d) λ u d1 p.
      bind-IfOk _ _ read_byte _ d1 (read_byte-Moved d1) λ prefix d2 q.
        bind-IfOk _ _ (consume_bytes 1) _ d2 (consume_bytes-Moved 1 d2) λ u' d3 r.
          map-IfOk (λ r d4. Charged (inner r) d3 d4) _ (read_prefixed (read_value levels) prefix d3)
            (λ reply d4 c. same-Charged (size-inner reply) (then-Charged (opened p q r) c))
            (read_prefixed-Charged (read_value levels) prefix d3 (read_value-Charged levels))
  where
    opened :
        {b : ℕ} {d e f g : Decoder}
        → Moved [] 0 1 d e
        → Moved (b ∷ []) 0 0 e f
        → Moved [] 1 0 f g
        → Charged 1 d g
    opened {b} p q r = (
      b ∷ [],
      record {
        input = p.input ∙ q.input ∙ ap (λ l. b ∷ l) r.input;
        charged = omega (arith, p.charged, q.charged, r.charged);
        counted = omega (arith, p.counted, q.counted, r.counted);
      },
    )

-- Where a reply is decoded, the bytes taken from the input and the budget that is left make up the byte
-- budget exactly, and the values of the reply and those left make up the value budget; so a reply is
-- never longer than the one and has never more values than the other.
pub decode-Charged :
    (input : Text) (r : Reply) (d : Decoder)
    → decode input ≡ ok (r, d)
    → (taken : Text) × (input ≡ taken ++ d.input)
      × (length taken + d.bytes_remaining ≡ max_aggregate_bytes)
      × (size r + d.values_remaining ≡ max_values)
unfolding decode new_decoder
decode-Charged input r d h =
    let (taken, moved) =
      IfOk-ok (λ r d'. Charged (size r) (new_decoder input) d') (read_value 129 (new_decoder input))
        r d (read_value-Charged 129 (new_decoder input)) h in
    (taken, moved.input, sym moved.charged, sym moved.counted)
