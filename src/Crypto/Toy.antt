-- ===== src/Crypto/Toy.antt =====
-- packages/crypto/src/index.ts: a stand-in for the primitives, for the examples.
use Prim.Native.Char.{code}
use tbridge.Base.{
  ℕ, zero, suc, ◌+◌, ◌*◌, ◌<◌, ◌≡◌, refl, ap, ◌∙◌, String, Option, none, some, List, [], ◌∷◌,
  if◌then◌else◌, length, All, ◌==◌, nat_eq, string_eq, arith,
}
use native.Mathlib.Nat.{mul_comm}
use mathlib.Core.Path.{ap₂}
use tbridge.Crypto.{Primitives}

-- A stand-in for base64: each byte as so many `a`s and a `b`.
unfoldable pub letters : ℕ → String → String
letters zero s = String.◌∷◌ "b" s
letters (suc n) s = String.◌∷◌ "a" (letters n s)

unfoldable pub spell : List ℕ → String
spell [] = ""
spell (n ∷ ns) = letters n (spell ns)

unfoldable pub read_from : ℕ → String → List ℕ
read_from a String.[] = []
read_from a (String.◌∷◌ c s) = if code c == b'a' then read_from (a + 1) s else a ∷ read_from 0 s

read_from-letters : (a n : ℕ) (s : String) → read_from a (letters n s) ≡ (a + n) ∷ read_from 0 s
unfolding read_from letters
read_from-letters a zero s = ap (λ m. m ∷ read_from 0 s) (omega arith)
read_from-letters a (suc n) s =
    read_from-letters (a + 1) n s ∙ ap (λ m. m ∷ read_from 0 s) (omega arith)

pub read-spell : (ns : List ℕ) → read_from 0 (spell ns) ≡ ns
unfolding spell read_from
read-spell [] = refl
read-spell (n ∷ ns) = read_from-letters 0 n (spell ns) ∙ ap₂ (◌∷◌) (omega arith) (read-spell ns)

unfoldable pub zeros : ℕ → List ℕ
zeros zero = []
zeros (suc n) = 0 ∷ zeros n

pub length-zeros : (n : ℕ) → length (zeros n) ≡ n
unfolding zeros
length-zeros zero = refl
length-zeros (suc n) = ap suc (length-zeros n)

pub zeros_bytes : (n : ℕ) → All (λ b. b < 256) (zeros n)
unfolding zeros
zeros_bytes zero = tt
zeros_bytes (suc n) = (omega arith, zeros_bytes n)

-- The stand-in's tag is fixed, and any other is refused.
unfoldable pub toy_tag : List ℕ
unfolding zeros
toy_tag = 7 ∷ zeros 15

unfoldable pub checked : ℕ → List ℕ → Option ℕ
checked text [] = none
checked text (b ∷ bs) = if b == 7 then some text else none

pub toy_unseal : (n : ℕ) → checked (length (zeros n)) toy_tag ≡ some n
unfolding checked toy_tag
toy_unseal n = ap some (length-zeros n)

pub length-toy_tag : length toy_tag ≡ 16
unfolding toy_tag
length-toy_tag = refl

pub toy_tag_bytes : All (λ b. b < 256) toy_tag
unfolding toy_tag
toy_tag_bytes = (omega arith, zeros_bytes 15)

abbrev pub toy : Primitives
toy = record {
  Key = List ℕ;
  PrivateKey = ℕ;
  PublicKey = ℕ;
  Text = ℕ;
  seal = λ k n t. (zeros t, toy_tag);
  unseal = λ k n text tag. checked (length text) tag;
  to_base64 = spell;
  from_base64 = λ s. read_from 0 s;
  diffie_hellman = λ a b. (a * b) ∷ [];
  hkdf = λ k. k;
  public_of = λ a. a;
  export = zeros;
  import = λ der. some (length der);
  unseal-seal = λ k n t. toy_unseal t;
  tag_length = λ k n t. length-toy_tag;
  seal_bytes = λ k n t. (zeros_bytes t, toy_tag_bytes);
  from_base64-to_base64 = λ bytes h. read-spell bytes;
  agree = λ a b. ap (λ n. n ∷ []) (mul_comm a b);
  export_bytes = zeros_bytes;
  import-export = λ p. ap some (length-zeros p);
}
