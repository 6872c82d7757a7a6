-- ===== src/Resp/Decode.antt =====
-- redis/ioredis_resp.go: the decode budget, the line reader and the value reader.
use fit_go.Base.{
  ℕ, zero, suc, ◌+◌, ◌-◌, ◌*◌, ◌^◌, Bool, true, false, [], ◌∷◌, Result, ok, err, if◌then◌else◌, ltb,
  leb, ◌==◌, Text, length, ℤ, pos, negsuc, parse_int, NumError, take, drop, same, not, ◌||◌,
}

-- A decoded value; an error reply inside an array is a member of it.
mutual
  pub data Reply : Type 0 where
    text error : Text → Reply
    integer : ℤ → Reply
    null : Reply
    array : Replies → Reply

  pub data Replies : Type 0 where
    nil : Replies
    cons : Reply → Replies → Replies

-- `end_of_input` is io.EOF or io.ErrUnexpectedEOF; the others are protocol errors.
pub data DecodeError : Type 0 where
  end_of_input depth_limit byte_limit value_limit line_limit line_terminator : DecodeError
  invalid_integer invalid_bulk_length bulk_limit bulk_terminator : DecodeError
  invalid_array_length array_limit array_value_limit unsupported_prefix : DecodeError

abbrev pub max_bulk_bytes : ℕ
max_bulk_bytes = 512 * 2 ^ 20

abbrev pub max_aggregate_bytes : ℕ
max_aggregate_bytes = 512 * 2 ^ 20 + 2 ^ 20

abbrev pub max_values : ℕ
max_values = 2 ^ 20

abbrev pub max_array_elements : ℕ
max_array_elements = 2 ^ 20

abbrev pub max_line_bytes : ℕ
max_line_bytes = 64 * 2 ^ 10

abbrev pub max_depth : ℕ
max_depth = 128

-- type ioredisRESPDecodeBudget, with the bytes that are still to be read. Both counts are int64 in
-- the source, start positive, and are never taken below zero.
pub record Decoder : Type 0 where
  pub bytes_remaining : ℕ
  pub values_remaining : ℕ
  pub input : Text

abbrev pub Read : Type 0 → Type 0
Read A = Decoder → Result DecodeError (A × Decoder)

abbrev pub continue :
    {A B : Type 0}
    → Result DecodeError (A × Decoder)
    → (A → Read B)
    → Result DecodeError (B × Decoder)
continue (ok (a, d)) f = f a d
continue (err e) f = err e

infixl 5 ◌>>=◌ ◌>>◌
unfoldable pub ◌>>=◌ : {A B : Type 0} → Read A → (A → Read B) → Read B
◌>>=◌ m f d = continue (m d) f

abbrev pub ◌>>◌ : {B : Type 0} → Read (Unit {0}) → Read B → Read B
m >> k = m >>= λ _. k

unfoldable pub pure : {A : Type 0} → A → Read A
pure a d = ok (a, d)

unfoldable pub fail : {A : Type 0} → DecodeError → Read A
fail e d = err e

-- budget.consumeBytes
unfoldable pub consume_bytes : ℕ → Read (Unit {0})
consume_bytes count d =
    if ltb d.bytes_remaining count
    then err byte_limit
    else ok (tt, record d { bytes_remaining = d.bytes_remaining - count })

-- budget.consumeValue
unfoldable pub consume_value : Read (Unit {0})
consume_value d =
    if leb d.values_remaining 0
    then err value_limit
    else ok (tt, record d { values_remaining = d.values_remaining - 1 })

abbrev pub first_byte : Text → Decoder → Result DecodeError (ℕ × Decoder)
first_byte [] d = err end_of_input
first_byte (b ∷ bs) d = ok (b, record d { input = bs })

-- reader.ReadByte
unfoldable pub read_byte : Read ℕ
read_byte d = first_byte d.input d

-- The bytes up to and with the first newline, what follows, and whether there was one.
unfoldable pub split_line : Text → Text × Text × Bool
split_line [] = ([], [], false)
split_line (b ∷ bs) =
    let (line, rest, found) = split_line bs in
    if b == 10 then (10 ∷ [], bs, true) else (b ∷ line, rest, found)

-- reader.ReadSlice until the newline: an unfinished line is an error, a long one first.
unfoldable pub take_line : Read Text
take_line d =
    let (line, rest, found) = split_line d.input in
    if ltb max_line_bytes (length line)
    then err line_limit
    else if found
    then ok (line, record d { input = rest })
    else err end_of_input

-- The end of readIORedisRESPLineWithBudget: the line without its final carriage return and newline.
unfoldable pub without_crlf : Text → Read Text
without_crlf line =
    if ltb (length line) 2 || not (same (drop (length line - 2) line) (13 ∷ 10 ∷ []))
    then fail line_terminator
    else pure (take (length line - 2) line)

-- readIORedisRESPLineWithBudget
unfoldable pub read_line : Read Text
read_line = do line ← take_line; consume_bytes (length line); without_crlf line

abbrev pub number_or : DecodeError → Result NumError ℤ → Read ℤ
number_or e (ok n) = pure n
number_or e (err x) = fail e

-- io.CopyN and io.ReadFull
unfoldable pub take_bytes : ℕ → Read Text
take_bytes count d =
    if ltb (length d.input) count
    then err end_of_input
    else ok (take count d.input, record d { input = drop count d.input })

-- The payload of a bulk string of a given length, and its terminator.
unfoldable pub read_payload : ℕ → Read Reply
read_payload count = do
  consume_bytes (count + 2)
  payload ← take_bytes count
  terminator ← take_bytes 2
  if same terminator (13 ∷ 10 ∷ []) then pure (text payload) else fail bulk_terminator

-- The length is an int64; the source's further comparison with the largest int is for machines of 32 bits.
abbrev pub bulk_of : ℤ → Read Reply
bulk_of (pos count) = if ltb max_bulk_bytes count then fail bulk_limit else read_payload count
bulk_of (negsuc zero) = pure null
bulk_of (negsuc (suc n)) = fail invalid_bulk_length

-- case '$'
unfoldable pub read_bulk : Read Reply
read_bulk = do
  line ← read_line
  count ← number_or invalid_bulk_length (parse_int line)
  bulk_of count

-- The loop of case '*', given how to read one value.
unfoldable pub read_many : Read Reply → ℕ → Read Replies
read_many one zero = pure nil
read_many one (suc count) = do value ← one; values ← read_many one count; pure (cons value values)

unfoldable pub read_elements : Read Reply → ℕ → Read Reply
read_elements one count d =
    if ltb max_array_elements count
    then err array_limit
    else if ltb d.values_remaining count
    then err array_value_limit
    else (read_many one count >>= λ values. pure (array values)) d

abbrev pub array_of : Read Reply → ℤ → Read Reply
array_of one (pos count) = read_elements one count
array_of one (negsuc zero) = pure null
array_of one (negsuc (suc n)) = fail invalid_array_length

-- case '*'
unfoldable pub read_array : Read Reply → Read Reply
read_array one = do
  line ← read_line
  count ← number_or invalid_array_length (parse_int line)
  array_of one count

-- case ':'
unfoldable pub read_integer : Read Reply
read_integer = do line ← read_line; n ← number_or invalid_integer (parse_int line); pure (integer n)

-- The switch on the prefix.
unfoldable pub read_prefixed : Read Reply → ℕ → Read Reply
read_prefixed one prefix =
    if prefix == b'+'
    then (read_line >>= λ line. pure (text line))
    else if prefix == b'-'
    then (read_line >>= λ line. pure (error line))
    else if prefix == b':'
    then read_integer
    else if prefix == b'$'
    then read_bulk
    else if prefix == b'*'
    then read_array one
    else fail unsupported_prefix

-- readIORedisRESPValueWithBudget. `levels` is how many levels of nesting are left: the source's depth
-- is `max_depth + 1 - levels`, and exceeds its limit where none is left.
unfoldable pub read_value : ℕ → Read Reply
read_value zero = fail depth_limit
read_value (suc levels) = do
  consume_value
  prefix ← read_byte
  consume_bytes 1
  read_prefixed (read_value levels) prefix

-- newIORedisRESPDecodeBudget
unfoldable pub new_decoder : Text → Decoder
new_decoder input = record {
  bytes_remaining = max_aggregate_bytes;
  values_remaining = max_values;
  input = input;
}

-- readIORedisRESPValue: the value, and the input that is left.
unfoldable pub decode : Text → Result DecodeError (Reply × Decoder)
decode input = read_value (suc max_depth) (new_decoder input)
