-- ===== src/Gateway/Address.antt =====
-- internal/gateway/broker_service.go: the address at which a client reaches the broker.
use Prim.Native.String
use lucas.Base.{String, none, some, ◌≡◌, refl, if◌then◌else◌, after_prefix, contains_text}

-- `strings.Replace` of the first occurrence of a text that is not empty.
unfoldable pub replace_first : String → String → String → String
replace_first old new String.[] = ""
replace_first old new (String.◌∷◌ c s) = elim (after_prefix old (String.◌∷◌ c s)) [
  | some rest ↦ String.◌++◌ new rest
  | none ↦ String.◌∷◌ c (replace_first old new s)
]

unfoldable pub convert_broker_address_to_client : String → String
unfolding replace_first contains_text
convert_broker_address_to_client address =
    if contains_text address "tcp://*:"
    then replace_first "*" "localhost" address
    else if contains_text address "tcp://0.0.0.0:"
    then replace_first "0.0.0.0" "localhost" address
    else address

converted : convert_broker_address_to_client "tcp://*:5555" ≡ "tcp://localhost:5555"
unfolding convert_broker_address_to_client after_prefix
converted = refl

converted_any : convert_broker_address_to_client "tcp://0.0.0.0:5555" ≡ "tcp://localhost:5555"
unfolding convert_broker_address_to_client after_prefix
converted_any = refl

kept : convert_broker_address_to_client "tcp://10.0.0.7:5555" ≡ "tcp://10.0.0.7:5555"
unfolding convert_broker_address_to_client
kept = refl
