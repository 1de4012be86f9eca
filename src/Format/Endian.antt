-- ===== src/Format/Endian.antt =====
-- Byte order: the loads of the host, and `le64toh` and its like of src/upstream/sparse-endian.h.
use mathlib.Core.List.{reverse, reverse_aux, reverse-reverse}
use mathlib.Core.Path.{ap₂}
use jio.Base.{
  ℕ, zero, suc, ◌+◌, ◌*◌, ◌/◌, ◌%◌, ◌<◌, ◌≡◌, refl, ap, ◌∙◌, List, [], ◌∷◌, arith, length,
}

pub data ByteOrder : Type 0 where
  little big : ByteOrder

-- The number that bytes stand for, the least significant first.
unfoldable pub le : List ℕ → ℕ
le [] = 0
le (x ∷ xs) = x + 256 * le xs

-- What an aligned or packed load of these bytes gives on the host.
unfoldable pub load : ByteOrder → List ℕ → ℕ
load ByteOrder.little bs = le bs
load ByteOrder.big bs = le (reverse bs)

unfoldable pub digits : ℕ → ℕ → List ℕ
digits zero x = []
digits (suc n) x = (x % 256) ∷ digits n (x / 256)

-- `__bswap_16`, `__bswap_32` and `__bswap_64` at their number of bytes.
unfoldable pub bswap : ℕ → ℕ → ℕ
unfolding le digits
bswap n x = le (reverse (digits n x))

unfoldable pub toh : ℕ → ByteOrder → ℕ → ℕ
unfolding bswap
toh n ByteOrder.little x = x
toh n ByteOrder.big x = bswap n x

abbrev pub le16toh : ByteOrder → ℕ → ℕ
le16toh = toh 2

abbrev pub le32toh : ByteOrder → ℕ → ℕ
le32toh = toh 4

abbrev pub le64toh : ByteOrder → ℕ → ℕ
le64toh = toh 8

abbrev pub AreBytes : List ℕ → Type 0
AreBytes [] = Unit {0}
AreBytes (x ∷ xs) = (x < 256) × AreBytes xs

digits-le : (n : ℕ) (bs : List ℕ) → length bs ≡ n → AreBytes bs → digits n (le bs) ≡ bs
unfolding digits le
digits-le zero [] e h = refl
digits-le zero (x ∷ xs) e h = absurd (omega arith)
digits-le (suc n) [] e h = absurd (omega arith)
digits-le (suc n) (x ∷ xs) e (b, h) =
    let low : (x + 256 * le xs) % 256 ≡ x = omega arith in
    let high : (x + 256 * le xs) / 256 ≡ le xs = omega arith in
    ap₂ {B = List ℕ} ◌∷◌ low (ap (digits n) high ∙ digits-le n xs (omega arith) h)

AreBytes-reverse_aux : (xs ys : List ℕ) → AreBytes xs → AreBytes ys → AreBytes (reverse_aux xs ys)
AreBytes-reverse_aux [] ys h k = k
AreBytes-reverse_aux (x ∷ xs) ys (b, h) k = AreBytes-reverse_aux xs (x ∷ ys) h (b, k)

length-reverse_aux : (xs ys : List ℕ) → length (reverse_aux xs ys) ≡ length xs + length ys
length-reverse_aux [] ys = omega arith
length-reverse_aux (x ∷ xs) ys = omega (arith, length-reverse_aux xs (x ∷ ys))

-- Loading as many bytes as a field has and converting gives their value in little-endian order, on
-- a host of either byte order.
pub toh-load :
    (n : ℕ) (e : ByteOrder) (bs : List ℕ)
    → length bs ≡ n
    → AreBytes bs
    → toh n e (load e bs) ≡ le bs
unfolding toh load
toh-load n ByteOrder.little bs l h = refl
toh-load n ByteOrder.big bs l h =
    ap (λ (r : List ℕ). le (reverse r))
      (digits-le n (reverse bs) (length-reverse_aux bs [] ∙ omega arith)
        (AreBytes-reverse_aux bs [] h tt))
    ∙ ap le (reverse-reverse bs)
