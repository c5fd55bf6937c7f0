-- ===== src/Calculator/Message.antt =====
-- The operation messages: the server's text of one (cw10/zad1/server.c) and the client's reading of it
-- and computation (cw10/zad1/inet_client.c).
pub mod Roundtrip
pub mod Range
mod Tests
use sysopy_all.Base.{
  ℕ, zero, suc, ◌+◌, ◌-◌, ◌*◌, Bool, true, false, ◌&&◌, ◌||◌, Option, none, some, ◌>>=◌, List, [],
  ◌∷◌, ◌++◌, ltb, leb, ◌==◌, if◌then◌else◌, length, Text, strtok, ℤ, pos, signed, opposite, ◌+ℤ◌,
  ◌-ℤ◌, ◌*ℤ◌, div, ◌==ℤ◌,
}

-- `struct operation_message`; each field has room for 5 bytes, the terminating zero included.
pub record OperationMessage : Type 0 where
  pub operation : Text
  pub first_argument : Text
  pub second_argument : Text

abbrev pub field_size : ℕ
field_size = 5

abbrev pub is_space : ℕ → Bool
is_space c = c == 32

-- The text that the server writes: the fields, with a space between them.
unfoldable pub serialized_operation_message : OperationMessage → Text
serialized_operation_message m =
    m.operation ++ (32 ∷ (m.first_argument ++ (32 ∷ m.second_argument)))

-- `strcpy` of a token into a field. The source tests nothing: a NULL token, or one that does not fit the
-- field, is undefined, which is `none`.
unfoldable pub store_token : Option (Text × Text) → Option (Text × Text)
store_token none = none
store_token (some (token, rest)) =
    if ltb (length token) field_size then some (token, rest) else none

-- The first token is the operation; in the loop the second and the third are the arguments, and what
-- follows them is skipped.
unfoldable pub deserialize_opmessage : Text → Option OperationMessage
unfolding store_token
deserialize_opmessage source = do
  (operation, rest1) ← store_token (strtok is_space source)
  (first_argument, rest2) ← store_token (strtok is_space rest1)
  (second_argument, rest3) ← store_token (strtok is_space rest2)
  some (record {
    operation = operation;
    first_argument = first_argument;
    second_argument = second_argument;
  })

-- `atoi`: blanks, a sign, digits.
abbrev pub is_digit : ℕ → Bool
is_digit c = leb 48 c && leb c 57

abbrev pub is_blank : ℕ → Bool
is_blank c = (c == 32) || (leb 9 c && leb c 13)

unfoldable pub digits : ℕ → Text → ℕ
digits acc [] = acc
digits acc (c ∷ cs) = if is_digit c then digits (10 * acc + (c - 48)) cs else acc

unfoldable pub number : Text → ℤ
unfolding digits
number [] = pos 0
number (c ∷ cs) =
    if c == 45
    then signed true (digits 0 cs)
    else if c == 43
    then pos (digits 0 cs)
    else pos (digits 0 (c ∷ cs))

unfoldable pub atoi : Text → ℤ
unfolding number
atoi [] = pos 0
atoi (c ∷ cs) = if is_blank c then atoi cs else number (c ∷ cs)

-- The `switch` on the first byte of the operation. `result` is what the variable holds before it;
-- division by 0 ends the client.
unfoldable pub compute : ℕ → ℤ → ℤ → ℤ → Option ℤ
compute operation first_argument second_argument result =
    if operation == 43
    then some (first_argument +ℤ second_argument)
    else if operation == 45
    then some (first_argument -ℤ second_argument)
    else if operation == 42
    then some (first_argument *ℤ second_argument)
    else if operation == 47
    then (if second_argument ==ℤ pos 0 then none else some (div first_argument second_argument))
    else some result

-- The first byte of a C string: the terminating zero of an empty one.
abbrev pub first_char : Text → ℕ
first_char [] = 0
first_char (c ∷ cs) = c

-- One round of the client's loop: a received text to the new result.
unfoldable pub answer : Text → ℤ → Option ℤ
unfolding deserialize_opmessage atoi compute
answer in_buffer result = do
  op_message ← deserialize_opmessage in_buffer
  compute (first_char op_message.operation) (atoi op_message.first_argument)
      (atoi op_message.second_argument) result
