-- ===== src/Protocol/Codec/Accepts.antt =====
-- packages/protocol/src/index.ts: exactly the messages of version 2 pass.
use tbridge.Base.{
  ◌≡◌, refl, sym, inl, inr, ap, ◌∙◌, String, true, false, Option, none, some, ◌==◌, nat_eq,
  string_eq, arith, Bool-cases,
}
use mathlib.Core.Logic.{◌↔◌}
use mathlib.Core.Bool.{false≢true}
use tbridge.Protocol.Codec.{
  Json, null, bool, number, other_number, text, array, object, Fields, find, accepts, member,
  is_text, lacks_text, check_payload, check_version, decode,
}

-- An object with `v` 2, and a payload that is an object with a `kind` that is a string.
pub VersionTwo : Json → Type 0
VersionTwo parsed =
    (fields payload : Fields) × (kind : String) × (parsed ≡ object fields)
    × (find "v" fields ≡ some (number 2))
    × (find "payload" fields ≡ some (object payload))
    × (find "kind" payload ≡ some (text kind))

-- What is of version 2, and has a payload with a kind, is accepted as it is.
version_two-accepted : (parsed : Json) → VersionTwo parsed → decode (some parsed) ≡ accepts parsed
unfolding VersionTwo decode
version_two-accepted parsed (fields, payload, kind, e, v, p, k) =
    rw e (rw (v, decode) (rw (p, check_payload) (rw (k, lacks_text) refl)))

member-some :
    (name : String) (p v : Json)
    → member name p ≡ some v
    → (fields : Fields) × (p ≡ object fields) × (find name fields ≡ some v)
member-some name null v h = absurd cc
member-some name (bool b) v h = absurd cc
member-some name (number n) v h = absurd cc
member-some name (other_number s) v h = absurd cc
member-some name (text s) v h = absurd cc
member-some name (array elements) v h = absurd cc
member-some name (object fields) v h = (fields, refl, h)

is_text-true : (o : Option Json) → is_text o ≡ true → (s : String) × (o ≡ some (text s))
is_text-true none h = absurd (false≢true h)
is_text-true (some null) h = absurd (false≢true h)
is_text-true (some (bool b)) h = absurd (false≢true h)
is_text-true (some (number n)) h = absurd (false≢true h)
is_text-true (some (other_number s)) h = absurd (false≢true h)
is_text-true (some (text s)) h = (s, refl)
is_text-true (some (array elements)) h = absurd (false≢true h)
is_text-true (some (object fields)) h = absurd (false≢true h)

lacks_text-false :
    (name : String) (o : Option Json)
    → lacks_text name o ≡ false
    → (value : Json) × (o ≡ some value) × (is_text (member name value) ≡ true)
unfolding lacks_text
lacks_text-false name none h = absurd (false≢true (sym h))
lacks_text-false name (some value) h = (value, refl, ground arith)

check_version-accepts :
    (p x : Json) (v : Option Json)
    → check_version p v ≡ accepts x
    → (v ≡ some (number 2)) × (lacks_text "kind" (member "payload" p) ≡ false)
unfolding check_version check_payload
check_version-accepts p x none h = absurd cc
check_version-accepts p x (some null) h = absurd cc
check_version-accepts p x (some (bool b)) h = absurd cc
check_version-accepts p x (some (number n)) h = elim (Bool-cases (n == 2)) [
  | inl e ↦ (ap (λ m. some (number m)) ((nat_eq.same_iff n 2).0 e), ground arith)
  | inr e ↦ absurd (ground arith)
]
check_version-accepts p x (some (other_number s)) h = absurd cc
check_version-accepts p x (some (text s)) h = absurd cc
check_version-accepts p x (some (array elements)) h = absurd cc
check_version-accepts p x (some (object fields)) h = absurd cc

accepted-version_two : (parsed x : Json) → decode (some parsed) ≡ accepts x → VersionTwo parsed
unfolding VersionTwo decode
accepted-version_two parsed x h =
    let (v, l) = check_version-accepts parsed x (member "v" parsed) (ground arith) in
    let (fields, e, fv) = member-some "v" parsed (number 2) v in
    let (value, p, t) = lacks_text-false "kind" (member "payload" parsed) l in
    let (fields', e', fp) = member-some "payload" parsed value p in
    let (kind, k) = is_text-true (member "kind" value) t in
    let (payload, ep, fk) = member-some "kind" value (text kind) k in
    (fields', payload, kind, e', ap (member "v") (sym e') ∙ v, fp ∙ ap some ep, fk)

-- `decode` lets through exactly the messages of version 2: a parsed text is accepted, as it is, if
-- and only if it is an object whose `v` is the number 2, with a `payload` that is an object whose
-- `kind` is a string.
pub decode_exact : (parsed : Json) → (decode (some parsed) ≡ accepts parsed) ↔ VersionTwo parsed
decode_exact parsed = (accepted-version_two parsed parsed, version_two-accepted parsed)
