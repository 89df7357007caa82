-- ===== src/Protocol/Codec/Tests.antt =====
-- packages/protocol/src/index.ts: the theorem at a ping.
use tbridge.Base.{◌≡◌, some}
use mathlib.Core.Logic.{◌↔◌}
use tbridge.Protocol.Codec.{Json, number, text, object, empty, field, accepts, decode}
use tbridge.Protocol.Codec.Accepts.{VersionTwo, decode_exact}

abbrev ping : Json
ping =
    object
      (field "v" (number 2) (field "payload" (object (field "kind" (text "PING") empty)) empty))

decode_exact_example : (decode (some ping) ≡ accepts ping) ↔ VersionTwo ping
decode_exact_example = decode_exact ping
