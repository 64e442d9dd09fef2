-- ===== src/Protocol/Decode.antt =====
-- `DecodeClientEvent` of internal/protocol/client_event.go.
use midnight_council.Base.{Bool, not, Option, none, some, if◌then◌else◌}
use midnight_council.Text.{GoString}
use midnight_council.Protocol.{
  ClientEvent, Checked, accepted, refused, invalid_json, invalid_schema,
}
use midnight_council.Protocol.Shape.{validate_shape}

-- What the code calls: `json.Decoder.Decode` of one event, with the input it leaves, whether nothing
-- but space is left, and `validator.Struct` on the tags.
pub record Decoder : Type 0 where
  pub decode : GoString → Option (ClientEvent × GoString)
  pub at_end : GoString → Bool
  pub valid : ClientEvent → Bool

abbrev returned : ClientEvent → Checked (Unit {0}) → Checked ClientEvent
returned e (accepted u) = accepted e
returned e (refused x) = refused x

unfoldable pub decode_client_event : Decoder → GoString → Checked ClientEvent
decode_client_event d input = elim (d.decode input) [
  | none ↦ refused invalid_json
  | some (e, rest) ↦
      if not (d.at_end rest)
      then refused invalid_json
      else if not (d.valid e)
      then refused invalid_schema
      else returned e (validate_shape e)
]
