-- ===== src/Resp/Tests.antt =====
-- Concrete replies and commands: the theorems of the codec at inputs where their hypotheses hold.
use fit_go.Base.{
  ◌+◌, ◌-◌, ◌≡◌, refl, List, [], ◌∷◌, ◌++◌, ok, Text, codes, length, negsuc, arith, show_nat,
  all_digits, decimal_value, parse_int, parse_digits, same,
}
use fit_go.Resp.Encode.{encode_arguments, encode_command}
use fit_go.Resp.Decode.{
  Reply, integer, error, null, array, nil, cons, Decoder, ◌>>=◌, pure, fail, consume_bytes,
  consume_value, read_byte, split_line, take_line, without_crlf, read_line, read_bulk, read_many,
  read_elements, read_array, read_integer, read_prefixed, read_value, new_decoder, decode,
  max_aggregate_bytes, max_values,
}
use fit_go.Resp.Budgets.{size, decode-Charged}
use fit_go.Resp.RoundTrip.{texts, decode-encode_command}

-- GET k, with a binary second argument.
abbrev get_command : List Text
get_command = codes "GET" ∷ (107 ∷ 13 ∷ 10 ∷ 0 ∷ []) ∷ []

encoded_length : length (encode_command get_command) ≡ 23
unfolding encode_command encode_arguments show_nat
encoded_length = refl

decode-encode_command_example :
    decode (encode_command get_command ++ codes "+OK")
    ≡ ok (
      array (texts get_command),
      record {
        bytes_remaining = max_aggregate_bytes - length (encode_command get_command);
        values_remaining = max_values - 3;
        input = codes "+OK";
      },
    )
decode-encode_command_example =
    decode-encode_command get_command (codes "+OK") (omega arith, (omega arith, tt)) (omega arith)
      (omega (arith, encoded_length))

-- An array of an integer, an error and a null bulk string, and a byte of the next reply.
abbrev mixed_input : Text
mixed_input =
    codes "*3"
    ++ 13
      ∷ 10
      ∷ (codes ":-7" ++ 13 ∷ 10 ∷ (codes "-ERR" ++ 13 ∷ 10 ∷ (codes "$-1" ++ 13 ∷ 10 ∷ codes "+")))

abbrev mixed_reply : Reply
mixed_reply = array (cons (integer (negsuc 6)) (cons (error (codes "ERR")) (cons null nil)))

abbrev mixed_rest : Decoder
mixed_rest = record {
  bytes_remaining = max_aggregate_bytes - 20;
  values_remaining = max_values - 4;
  input = codes "+";
}

decodes_mixed : decode mixed_input ≡ ok (mixed_reply, mixed_rest)
unfolding decode new_decoder read_value consume_value read_byte consume_bytes read_prefixed
    read_array read_line take_line split_line without_crlf read_elements read_many read_integer
    read_bulk parse_int parse_digits all_digits decimal_value same ◌>>=◌ pure fail
decodes_mixed = refl

decode-Charged_example :
    (taken : Text) × (mixed_input ≡ taken ++ mixed_rest.input)
    × (length taken + mixed_rest.bytes_remaining ≡ max_aggregate_bytes)
    × (size mixed_reply + mixed_rest.values_remaining ≡ max_values)
decode-Charged_example = decode-Charged mixed_input mixed_reply mixed_rest decodes_mixed
