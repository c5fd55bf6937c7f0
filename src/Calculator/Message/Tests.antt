-- ===== src/Calculator/Message/Tests.antt =====
-- One operation, written, read and computed.
use sysopy_all.Base.{◌≡◌, refl, some, none, [], ◌∷◌, Text, pos, negsuc, ◌*ℤ◌, strtok, arith}
use sysopy_all.Calculator.Message.{
  OperationMessage, serialized_operation_message, deserialize_opmessage, answer,
}
use sysopy_all.Calculator.Message.Roundtrip.{deserialize-serialized}

-- * -12 99
abbrev times_message : OperationMessage
times_message = record {
  operation = 42 ∷ [];
  first_argument = 45 ∷ 49 ∷ 50 ∷ [];
  second_argument = 57 ∷ 57 ∷ [];
}

abbrev times_text : Text
times_text = 42 ∷ 32 ∷ 45 ∷ 49 ∷ 50 ∷ 32 ∷ 57 ∷ 57 ∷ []

written : serialized_operation_message times_message ≡ times_text
unfolding serialized_operation_message
written = refl

computed : answer times_text (pos 0) ≡ some (negsuc 1187)
unfolding answer strtok ◌*ℤ◌
computed = refl

by_zero : answer (47 ∷ 32 ∷ 55 ∷ 32 ∷ 48 ∷ []) (pos 0) ≡ none
unfolding answer strtok
by_zero = refl

deserialize-serialized_example :
    deserialize_opmessage (serialized_operation_message times_message) ≡ some times_message
deserialize-serialized_example =
    deserialize-serialized times_message ((refl, tt), omega arith)
      ((refl, (refl, (refl, tt))), omega arith) ((refl, (refl, tt)), omega arith)
