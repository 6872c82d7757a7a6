-- ===== src/Resp/Frames.antt =====
-- The readers of redis/ioredis_resp.go on input that starts with what they expect.
use fit_go.Base.{
  ℕ, suc, ◌+◌, ◌-◌, ◌≤◌, ◌<◌, ◌^◌, ◌≡◌, refl, ap, true, false, [], ◌∷◌, ◌++◌, Result, ok,
  if◌then◌else◌, ltb, leb, ◌==◌, Text, length, length-append, pos, parse_int, parse_int-show_nat,
  show_nat, all_digits, all_digits-show_nat, length-show_nat, arith, take, drop, same, same_refl,
}
use fit_go.Resp.Encode.{crlf}
use fit_go.Resp.Decode.{
  max_line_bytes, fail, bulk_terminator, invalid_bulk_length, DecodeError, text, Decoder, Read,
  ◌>>=◌, pure, consume_bytes, consume_value, read_byte, split_line, take_line, without_crlf,
  read_line, number_or, take_bytes, read_payload, bulk_of, read_bulk, read_prefixed, read_value,
  max_bulk_bytes,
}

abbrev pub at : ℕ → ℕ → Text → Decoder
at bytes values input = record { bytes_remaining = bytes; values_remaining = values; input = input }

-- The first part of a sequence succeeds, and the second does.
pub then_ok :
    {A B : Type 0} (m : Read A) (f : A → Read B) (d e : Decoder) (a : A)
    (x : Result _ (B × Decoder))
    → m d ≡ ok (a, e)
    → f a e ≡ x
    → (m >>= f) d ≡ x
unfolding ◌>>=◌
then_ok m f d e a x h k = rw h k

pub consume_bytes_ok :
    (count n b v : ℕ) (i : Text)
    → n ≡ count + b
    → consume_bytes count (at n v i) ≡ ok (tt, at b v i)
unfolding consume_bytes
consume_bytes_ok count n b v i h =
    let enough : ltb n count ≡ false = ground arith in
    let left : n - count ≡ b = omega arith in rw (enough, left)

pub consume_value_ok : (n v : ℕ) (i : Text) → consume_value (at n (suc v) i) ≡ ok (tt, at n v i)
unfolding consume_value
consume_value_ok n v i =
    let left : suc v - 1 ≡ v = omega arith in
    let enough : leb (suc v) 0 ≡ false = ground arith in rw (enough, left)

pub split_line_ok :
    (s rest : Text) → all_digits s ≡ true → split_line (s ++ crlf rest) ≡ (s ++ crlf [], rest, true)
unfolding split_line all_digits
split_line_ok [] rest h = refl
split_line_ok (c ∷ s) rest h =
    let no_newline : (c == 10) ≡ false = ground arith in
    rw (no_newline, split_line_ok s rest (ground arith))

pub drop-append : (s t : Text) → drop (length s) (s ++ t) ≡ t
drop-append [] t = refl
drop-append (c ∷ s) t = drop-append s t

pub take-append : (s t : Text) → take (length s) (s ++ t) ≡ s
take-append [] t = refl
take-append (c ∷ s) t = ap (λ l. c ∷ l) (take-append s t)

pub take_line_ok :
    (s rest : Text) (n v : ℕ)
    → all_digits s ≡ true
    → length s ≤ 20
    → take_line (at n v (s ++ crlf rest)) ≡ ok (s ++ crlf [], at n v rest)
unfolding take_line
take_line_ok s rest n v h k =
    let short : ltb max_line_bytes (length s + 2) ≡ false = ground arith in
    rw (split_line_ok s rest h, length-append s (crlf [])) (rw short)

pub without_crlf_ok : (s : Text) (d : Decoder) → without_crlf (s ++ crlf []) d ≡ ok (s, d)
unfolding without_crlf pure
without_crlf_ok s d =
    let same_length : length (s ++ crlf []) - 2 ≡ length s =
      omega (arith, length-append s (crlf [])) in
    let long : ltb (length (s ++ crlf [])) 2 ≡ false = ground (arith, length-append s (crlf [])) in
    rw (same_length, long, drop-append s (crlf []), same_refl (crlf []), take-append s (crlf []))

pub read_line_ok :
    (s rest : Text) (n b v : ℕ)
    → all_digits s ≡ true
    → length s ≤ 20
    → n ≡ length s + 2 + b
    → read_line (at n v (s ++ crlf rest)) ≡ ok (s, at b v rest)
unfolding read_line
read_line_ok s rest n b v h k e =
    then_ok take_line _ (at n v (s ++ crlf rest)) (at n v rest) (s ++ crlf []) _
      (take_line_ok s rest n v h k)
      (then_ok (consume_bytes (length (s ++ crlf []))) _ (at n v rest) (at b v rest) tt _
        (consume_bytes_ok (length (s ++ crlf [])) n b v rest
          (omega (arith, e, length-append s (crlf []))))
        (without_crlf_ok s (at b v rest)))

pub take_bytes_ok :
    (t rest : Text) (n v : ℕ) → take_bytes (length t) (at n v (t ++ rest)) ≡ ok (t, at n v rest)
unfolding take_bytes
take_bytes_ok t rest n v =
    let long : ltb (length (t ++ rest)) (length t) ≡ false = ground (arith, length-append t rest) in
    rw (long, take-append t rest, drop-append t rest)

pub terminated :
    (t : Text) (d : Decoder)
    → (if same (13 ∷ 10 ∷ []) (13 ∷ 10 ∷ []) then pure (text t) else fail bulk_terminator) d
      ≡ ok (text t, d)
unfolding same pure
terminated t d = refl

pub read_payload_ok :
    (t rest : Text) (n b v : ℕ)
    → n ≡ length t + 2 + b
    → read_payload (length t) (at n v (t ++ crlf rest)) ≡ ok (text t, at b v rest)
unfolding read_payload
read_payload_ok t rest n b v e =
    then_ok (consume_bytes (length t + 2)) _ _ (at b v (t ++ crlf rest)) tt _
      (consume_bytes_ok (length t + 2) n b v (t ++ crlf rest) e)
      (then_ok (take_bytes (length t)) _ _ (at b v (crlf rest)) t _
        (take_bytes_ok t (crlf rest) b v)
        (then_ok (take_bytes 2) _ _ (at b v rest) (13 ∷ 10 ∷ []) _
          (take_bytes_ok (13 ∷ 10 ∷ []) rest b v) (terminated t (at b v rest))))

pub number_ok :
    (e : DecodeError) (k : ℕ) (d : Decoder)
    → k < 10 ^ 18
    → number_or e (parse_int (show_nat k)) d ≡ ok (pos k, d)
number_ok e k d h = rw (parse_int-show_nat k (omega arith)) (unfold pure in refl)

-- A length that is printed, and its line read back.
pub counted_line_ok :
    (k : ℕ) (rest : Text) (n b v : ℕ)
    → k < 10 ^ 18
    → n ≡ length (show_nat k) + 2 + b
    → read_line (at n v (show_nat k ++ crlf rest)) ≡ ok (show_nat k, at b v rest)
counted_line_ok k rest n b v h e =
    read_line_ok (show_nat k) rest n b v (all_digits-show_nat k) (length-show_nat k (omega arith)) e

pub read_bulk_ok :
    (t rest : Text) (n b v : ℕ)
    → length t ≤ max_bulk_bytes
    → n ≡ length (show_nat (length t)) + 2 + (length t + 2 + b)
    → read_bulk (at n v (show_nat (length t) ++ crlf (t ++ crlf rest))) ≡ ok (text t, at b v rest)
unfolding read_bulk
read_bulk_ok t rest n b v h e =
    let within : ltb max_bulk_bytes (length t) ≡ false = ground arith in
    let m = length t + 2 + b in
    then_ok read_line _ _ (at m v (t ++ crlf rest)) (show_nat (length t)) _
      (counted_line_ok (length t) (t ++ crlf rest) n m v (omega arith) e)
      (then_ok (number_or invalid_bulk_length (parse_int (show_nat (length t)))) bulk_of _
        (at m v (t ++ crlf rest)) (pos (length t)) _
        (number_ok invalid_bulk_length (length t) _ (omega arith))
        (rw within (read_payload_ok t rest m b v refl)))

-- One argument.
pub read_argument_ok :
    (levels : ℕ) (t rest : Text) (n b v : ℕ)
    → length t ≤ max_bulk_bytes
    → n ≡ 1 + (length (show_nat (length t)) + 2 + (length t + 2 + b))
    → read_value (suc levels) (at n (suc v) (b'$' ∷ (show_nat (length t) ++ crlf (t ++ crlf rest))))
      ≡ ok (text t, at b v rest)
unfolding read_value read_byte read_prefixed
read_argument_ok levels t rest n b v h e =
    let input = show_nat (length t) ++ crlf (t ++ crlf rest) in
    let m = length (show_nat (length t)) + 2 + (length t + 2 + b) in
    then_ok consume_value _ _ (at n v (b'$' ∷ input)) tt _ (consume_value_ok n v (b'$' ∷ input)) (
      then_ok read_byte _ _ (at n v input) b'$' _ refl (
        then_ok (consume_bytes 1) _ _ (at m v input) tt _ (consume_bytes_ok 1 n m v input e)
          (read_bulk_ok t rest m b v h refl)))
