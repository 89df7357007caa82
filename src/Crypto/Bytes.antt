-- ===== src/Crypto/Bytes.antt =====
-- packages/crypto/src/index.ts: the big-endian integers of `Buffer`.
use native.Mathlib.Nat.{pow-suc}
use tbridge.Base.{
  ℕ, zero, suc, ◌+◌, ◌*◌, ◌/◌, ◌%◌, ◌^◌, ◌<◌, ◌≡◌, refl, ◌∙◌, List, [], ◌∷◌, ◌++◌, length,
  length-append, All, All-append, arith,
}

-- `writeUInt32BE` and `writeBigUInt64BE`: the last `n` bytes of a number.
unfoldable pub be : ℕ → ℕ → List ℕ
be zero v = []
be (suc n) v = be n (v / 256) ++ v % 256 ∷ []

of_be_from : ℕ → List ℕ → ℕ
of_be_from a [] = a
of_be_from a (b ∷ bs) = of_be_from (a * 256 + b) bs

-- `readBigUInt64BE`.
unfoldable pub of_be : List ℕ → ℕ
unfolding of_be_from
of_be bs = of_be_from 0 bs

of_be_from-append :
    (a b : ℕ) (bs : List ℕ) → of_be_from a (bs ++ b ∷ []) ≡ of_be_from a bs * 256 + b
unfolding of_be_from
of_be_from-append a b [] = refl
of_be_from-append a b (c ∷ bs) = of_be_from-append (a * 256 + c) b bs

-- What is written is read back, if it fits.
pub of_be-be : (n v : ℕ) → v < 256 ^ n → of_be (be n v) ≡ v
unfolding of_be be
of_be-be zero v h = omega arith
of_be-be (suc n) v h =
    of_be_from-append 0 (v % 256) (be n (v / 256))
    ∙ omega (arith, of_be-be n (v / 256) (omega (arith, pow-suc 256 n)))

pub length-be : (n v : ℕ) → length (be n v) ≡ n
unfolding be
length-be zero v = refl
length-be (suc n) v =
    omega (arith, length-append (be n (v / 256)) (v % 256 ∷ []), length-be n (v / 256))

pub be_bytes : (n v : ℕ) → All (λ b. b < 256) (be n v)
unfolding be
be_bytes zero v = tt
be_bytes (suc n) v =
    All-append _ (be n (v / 256)) (v % 256 ∷ []) (be_bytes n (v / 256)) (omega arith, tt)
