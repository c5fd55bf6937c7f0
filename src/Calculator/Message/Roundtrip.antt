-- ===== src/Calculator/Message/Roundtrip.antt =====
-- What the server writes of a message, the client reads back.
use sysopy_all.Base.{
  ◌≡◌, ◌<◌, refl, some, [], ◌∷◌, ◌++◌, length, Text, strtok, Solid, strtok-append, strtok-last,
  arith,
}
use sysopy_all.Calculator.Message.{
  OperationMessage, field_size, is_space, serialized_operation_message, store_token,
  deserialize_opmessage,
}

-- A word that `scanf` reads and a field holds: no space, not empty, short enough.
abbrev pub IsWord : Text → Type 0
IsWord [] = ⊥
IsWord (c ∷ w) = Solid is_space (c ∷ w) × (length (c ∷ w) < field_size)

store_token-some :
    (w rest : Text) → length w < field_size → store_token (some (w, rest)) ≡ some (w, rest)
unfolding store_token
store_token-some w rest h = ground arith

next_word :
    (w rest : Text) → IsWord w → store_token (strtok is_space (w ++ (32 ∷ rest))) ≡ some (w, rest)
next_word [] rest h = absurd h
next_word (c ∷ w) rest (h, l) =
    rw (strtok-append is_space c 32 w rest h refl) (store_token-some (c ∷ w) rest l)

last_word : (w : Text) → IsWord w → store_token (strtok is_space w) ≡ some (w, [])
last_word [] h = absurd h
last_word (c ∷ w) (h, l) = rw (strtok-last is_space c w h) (store_token-some (c ∷ w) [] l)

-- A message whose three fields are words, as `scanf` reads them and the fields hold them, comes back
-- from its text as it was.
pub deserialize-serialized :
    (m : OperationMessage)
    → IsWord m.operation
    → IsWord m.first_argument
    → IsWord m.second_argument
    → deserialize_opmessage (serialized_operation_message m) ≡ some m
unfolding deserialize_opmessage serialized_operation_message
deserialize-serialized m h1 h2 h3 =
    rw
      (
        next_word m.operation (m.first_argument ++ (32 ∷ m.second_argument)) h1,
        next_word m.first_argument m.second_argument h2,
        last_word m.second_argument h3,
      )
      refl
