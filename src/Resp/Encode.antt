-- ===== src/Resp/Encode.antt =====
-- redis/ioredis_resp.go: encodeIORedisRESPCommands.
use fit_go.Base.{
  Bool, true, List, [], ◌∷◌, ◌++◌, Result, ok, err, ◌>>=◌, if◌then◌else◌, Text, length, show_nat,
  is_empty,
}

pub data EncodeError : Type 0 where
  empty_command : EncodeError

abbrev pub crlf : Text → Text
crlf rest = 13 ∷ 10 ∷ rest

unfoldable pub encode_arguments : List Text → Text
encode_arguments [] = []
encode_arguments (argument ∷ rest) =
    b'$' ∷ (show_nat (length argument) ++ crlf (argument ++ crlf (encode_arguments rest)))

unfoldable pub encode_command : List Text → Text
encode_command command = b'*' ∷ (show_nat (length command) ++ crlf (encode_arguments command))

-- len(command) == 0 || command[0] == ""
unfoldable pub is_blank : List Text → Bool
is_blank [] = true
is_blank (name ∷ arguments) = is_empty name

unfoldable pub encode_commands : List (List Text) → Result EncodeError Text
encode_commands [] = ok []
encode_commands (command ∷ commands) =
    if is_blank command
    then err empty_command
    else (do rest ← encode_commands commands; ok (encode_command command ++ rest))
