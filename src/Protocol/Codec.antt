-- ===== src/Protocol/Codec.antt =====
-- packages/protocol/src/index.ts: what `decode` and `decodeMessage` accept.
--
-- The text has been through `JSON.parse`: `none` is a text that it refuses.
pub mod Accepts
mod Tests
use tbridge.Base.{
  ℕ, String, Bool, true, false, not, Option, none, some, List, [], ◌∷◌, if◌then◌else◌, get, ◌==◌,
  nat_eq, string_eq,
}

-- A JSON value. A number that is no natural is kept as its text, and the fields of an object stand
-- once each.
mutual
  pub data Json : Type 0 where
    null : Json
    bool : Bool → Json
    number : ℕ → Json
    other_number : String → Json
    text : String → Json
    array : Elements → Json
    object : Fields → Json

  pub data Elements : Type 0 where
    nothing : Elements
    element : Json → Elements → Elements

  pub data Fields : Type 0 where
    empty : Fields
    field : String → Json → Fields → Fields

pub data CodecError : Type 0 where
  syntax invalid_message version_mismatch invalid_payload empty_message : CodecError

pub data Decoding : Type 0 where
  accepts : Json → Decoding
  refuses : CodecError → Decoding

unfoldable pub find : String → Fields → Option Json
find name empty = none
find name (field key value fields) =
    let rest = find name fields in if key == name then some value else rest

-- `value.name`, which is undefined where the value is no object. Reading a field of null throws, but
-- the source asks whether a value is there before.
abbrev pub member : String → Json → Option Json
member name (object fields) = find name fields
member name value = none

-- `!value`.
abbrev pub is_falsy : Json → Bool
is_falsy null = true
is_falsy (bool b) = not b
is_falsy (number n) = n == 0
is_falsy (other_number s) = s == "-0"
is_falsy (text s) = s == ""
is_falsy (array elements) = false
is_falsy (object fields) = false

-- `!value || typeof value[name] !== "string"`.
abbrev pub is_text : Option Json → Bool
is_text (some (text s)) = true
is_text value = false

unfoldable pub lacks_text : String → Option Json → Bool
lacks_text name none = true
lacks_text name (some value) = if is_falsy value then true else not (is_text (member name value))

-- The tests on `parsed.v` and on `parsed.payload`, of a value that is there.
unfoldable pub check_payload : Json → Decoding
unfolding lacks_text
check_payload parsed =
    if lacks_text "kind" (member "payload" parsed) then refuses invalid_payload else accepts parsed

unfoldable pub check_version : Json → Option Json → Decoding
unfolding check_payload
check_version parsed (some (number v)) =
    if v == 2 then check_payload parsed else refuses version_mismatch
check_version parsed (some (other_number v)) = refuses version_mismatch
check_version parsed v = refuses invalid_message

unfoldable pub decode : Option Json → Decoding
unfolding check_version
decode none = refuses syntax
decode (some parsed) =
    if is_falsy parsed then refuses invalid_message else check_version parsed (member "v" parsed)

-- `decodeMessage`. Its first argument says whether there was a text that is not empty.
unfoldable pub decode_message : Bool → Option Json → Decoding
unfolding lacks_text
decode_message false parsed = refuses empty_message
decode_message true none = refuses syntax
decode_message true (some parsed) =
    if lacks_text "type" (some parsed) then refuses invalid_message else accepts parsed
