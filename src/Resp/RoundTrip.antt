-- ===== src/Resp/RoundTrip.antt =====
-- A command that redis/ioredis_resp.go encodes is decoded as the array of its arguments.
use fit_go.Base.{
  ℕ, suc, ◌+◌, ◌-◌, ◌≤◌, ◌<◌, subst, ◌≡◌, refl, sym, ap, ◌∙◌, false, List, [], ◌∷◌, ◌++◌,
  append_assoc, ok, ltb, Text, length, length-append, pos, parse_int, show_nat, arith, All,
}
use fit_go.Resp.Encode.{crlf, encode_arguments, encode_command}
use fit_go.Resp.Decode.{
  max_values, invalid_array_length, text, array, Replies, nil, cons, pure, consume_bytes,
  consume_value, read_byte, read_line, number_or, read_many, read_elements, read_array,
  read_prefixed, read_value, new_decoder, decode, max_bulk_bytes, max_aggregate_bytes,
  max_array_elements,
}
use fit_go.Resp.Frames.{
  at, then_ok, consume_bytes_ok, consume_value_ok, number_ok, counted_line_ok, read_argument_ok,
}

-- The reply that holds the arguments of a command.
unfoldable pub texts : List Text → Replies
texts [] = nil
texts (t ∷ ts) = cons (text t) (texts ts)

abbrev pub Fits : List Text → Type 0
Fits = All (λ t. length t ≤ max_bulk_bytes)

encode_arguments-append :
    (t : Text) (ts : List Text) (rest : Text)
    → encode_arguments (t ∷ ts) ++ rest
      ≡ b'$' ∷ (show_nat (length t) ++ crlf (t ++ crlf (encode_arguments ts ++ rest)))
unfolding encode_arguments
encode_arguments-append t ts rest =
    ap (λ l. b'$' ∷ l)
      (append_assoc (show_nat (length t)) (crlf (t ++ crlf (encode_arguments ts))) rest
        ∙ ap (λ l. show_nat (length t) ++ crlf l)
            (append_assoc t (crlf (encode_arguments ts)) rest))

length-encode_arguments :
    (t : Text) (ts : List Text)
    → length (encode_arguments (t ∷ ts))
      ≡ 1 + (length (show_nat (length t)) + 2 + (length t + 2 + length (encode_arguments ts)))
unfolding encode_arguments
length-encode_arguments t ts = omega (
  arith,
  length-append (show_nat (length t)) (crlf (t ++ crlf (encode_arguments ts))),
  length-append t (crlf (encode_arguments ts)),
)

nothing_ok :
    (n b v : ℕ) (rest : Text)
    → n ≡ b
    → pure nil (at n (0 + v) (encode_arguments [] ++ rest)) ≡ ok (nil, at b v rest)
unfolding pure encode_arguments
nothing_ok n b v rest e = let same_values : 0 + v ≡ v = omega arith in rw (e, same_values)

read_many_ok :
    (levels : ℕ) (ts : List Text) (rest : Text) (n b v : ℕ)
    → Fits ts
    → n ≡ length (encode_arguments ts) + b
    → read_many
        (read_value (suc levels))
        (length ts)
        (at n (length ts + v) (encode_arguments ts ++ rest))
      ≡ ok (texts ts, at b v rest)
unfolding read_many texts pure
read_many_ok levels [] rest n b v h e =
    nothing_ok n b v rest (unfold encode_arguments in omega (arith, e))
read_many_ok levels (t ∷ ts) rest n b v h e =
    let m = length (encode_arguments ts) + b in
    let counts : length (t ∷ ts) + v ≡ suc (length ts + v) = omega arith in
    rw (counts, encode_arguments-append t ts rest)
      (then_ok (read_value (suc levels)) _ _ (at m (length ts + v) (encode_arguments ts ++ rest))
        (text t) _
        (read_argument_ok levels t (encode_arguments ts ++ rest) n m (length ts + v) h.0
          (omega (arith, e, length-encode_arguments t ts)))
        (then_ok (read_many (read_value (suc levels)) (length ts)) _ _ (at b v rest) (texts ts) _
          (read_many_ok levels ts rest m b v h.1 refl) refl))

read_array_ok :
    (levels : ℕ) (ts : List Text) (rest : Text) (n b v : ℕ)
    → Fits ts
    → length ts ≤ max_array_elements
    → n ≡ length (show_nat (length ts)) + 2 + (length (encode_arguments ts) + b)
    → read_array
        (read_value (suc levels))
        (at n (length ts + v) (show_nat (length ts) ++ crlf (encode_arguments ts ++ rest)))
      ≡ ok (array (texts ts), at b v rest)
unfolding read_array read_elements pure
read_array_ok levels ts rest n b v h k e =
    let m = length (encode_arguments ts) + b in
    let w = length ts + v in
    let within : ltb max_array_elements (length ts) ≡ false = ground arith in
    let left : ltb (length ts + v) (length ts) ≡ false = ground arith in
    then_ok read_line _ _ (at m w (encode_arguments ts ++ rest)) (show_nat (length ts)) _
      (counted_line_ok (length ts) (encode_arguments ts ++ rest) n m w (omega arith) e)
      (then_ok (number_or invalid_array_length (parse_int (show_nat (length ts)))) _ _
        (at m w (encode_arguments ts ++ rest)) (pos (length ts)) _
        (number_ok invalid_array_length (length ts) _ (omega arith))
        (rw (within, left)
          (then_ok (read_many (read_value (suc levels)) (length ts)) _ _ (at b v rest) (texts ts) _
            (read_many_ok levels ts rest m b v h refl) refl)))

encode_command-append :
    (ts : List Text) (rest : Text)
    → encode_command ts ++ rest
      ≡ b'*' ∷ (show_nat (length ts) ++ crlf (encode_arguments ts ++ rest))
unfolding encode_command
encode_command-append ts rest =
    ap (λ l. b'*' ∷ l) (append_assoc (show_nat (length ts)) (crlf (encode_arguments ts)) rest)

length-encode_command :
    (ts : List Text)
    → length (encode_command ts)
      ≡ 1 + (length (show_nat (length ts)) + 2 + length (encode_arguments ts))
unfolding encode_command
length-encode_command ts =
    omega (arith, length-append (show_nat (length ts)) (crlf (encode_arguments ts)))

-- An encoded command, where the budget has room for its bytes and for its arguments and the array.
pub read_value-encode_command :
    (levels : ℕ) (ts : List Text) (rest : Text) (n b v : ℕ)
    → Fits ts
    → length ts ≤ max_array_elements
    → n ≡ length (encode_command ts) + b
    → read_value (suc (suc levels)) (at n (suc (length ts + v)) (encode_command ts ++ rest))
      ≡ ok (array (texts ts), at b v rest)
unfolding read_value read_byte read_prefixed
read_value-encode_command levels ts rest n b v h k e =
    let input = show_nat (length ts) ++ crlf (encode_arguments ts ++ rest) in
    let m = length (show_nat (length ts)) + 2 + (length (encode_arguments ts) + b) in
    let w = length ts + v in
    rw (encode_command-append ts rest) (
      then_ok consume_value _ _ (at n w (b'*' ∷ input)) tt _ (consume_value_ok n w (b'*' ∷ input)) (
        then_ok read_byte _ _ (at n w input) b'*' _ refl (
          then_ok (consume_bytes 1) _ _ (at m w input) tt _
            (consume_bytes_ok 1 n m w input (omega (arith, e, length-encode_command ts)))
            (read_array_ok levels ts rest m b v h k refl))))

-- What the encoder writes for a command, followed by anything, is read as the array of the command's
-- arguments, and what follows is left, where each argument is at most 512 MiB, the whole is within the
-- byte budget of a reply, and the arguments with their array are within its value budget.
pub decode-encode_command :
    (ts : List Text) (rest : Text)
    → Fits ts
    → length ts < max_values
    → length (encode_command ts) ≤ max_aggregate_bytes
    → decode (encode_command ts ++ rest)
      ≡ ok (
        array (texts ts),
        record {
          bytes_remaining = max_aggregate_bytes - length (encode_command ts);
          values_remaining = max_values - suc (length ts);
          input = rest;
        },
      )
unfolding decode new_decoder
decode-encode_command ts rest h k l =
    let v = max_values - suc (length ts) in
    let b = max_aggregate_bytes - length (encode_command ts) in
    let values : max_values ≡ suc (length ts + v) = omega arith in
    subst
      (λ c.
        read_value 129 (at max_aggregate_bytes c (encode_command ts ++ rest))
        ≡ ok (array (texts ts), at b v rest))
      (sym values)
      (read_value-encode_command 127 ts rest max_aggregate_bytes b v h (omega arith) (omega arith))
