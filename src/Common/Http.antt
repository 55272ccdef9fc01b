-- ===== src/Common/Http.antt =====
-- What the two packages of HTTP handlers share: how a body is bound, the answers to errors, and the
-- headers that a handler reads. gin binds a body and the validation package checks it: what they
-- answer is an argument of the handlers.
use mathlib.Core.List.{List, []}
use wesko_go_backend.Common.Lists.{is_empty}
use wesko_go_backend.Common.Tests.{if◌then◌else◌}
use wesko_go_backend.Common.Text.{Text, codes}

-- errorResponse
pub record ErrorResponse : Type 0 where
  pub error : Text
  pub request_id : Text
  pub details : List (Text × Text)

-- What ShouldBindJSON and validation.Validate make of a body; `rejected` is an error of Validate
-- that is not its own Errors.
pub data Bound (A : Type 0) : Type 0 where
  bound : A → Bound A
  malformed : Bound A
  invalid : List (Text × Text) → Bound A
  rejected : Bound A

-- requestIDFromContext, from the context and the header.
unfoldable pub request_id_from_context : Text → Text → Text
request_id_from_context in_context in_header = if is_empty in_context then in_header else in_context

-- decodeAndValidateJSON: the value, or the body of the answer, whose status is 400.
pub data Decoded (A : Type 0) : Type 0 where
  value : A → Decoded A
  refused : ErrorResponse → Decoded A

unfoldable pub decode_and_validate_json : {A : Type 0} → Text → Bound A → Decoded A
decode_and_validate_json id (bound a) = value a
decode_and_validate_json id malformed =
    refused (record { error = codes "invalid request body"; request_id = id; details = [] })
decode_and_validate_json id (invalid messages) =
    refused (record { error = codes "validation failed"; request_id = id; details = messages })
decode_and_validate_json id rejected =
    refused (record { error = codes "validation failed"; request_id = id; details = [] })
