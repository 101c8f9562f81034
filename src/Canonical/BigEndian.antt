-- ===== src/Canonical/BigEndian.antt =====
-- Big-endian numbers, as DataView writes and reads them in packages/canonical/src.
use chronolog_db.Prelude.{
  ℕ, zero, suc, ◌+◌, ◌*◌, ◌/◌, ◌%◌, ◌^◌, ◌<◌, ◌≡◌, refl, ◌∙◌, [], ◌∷◌, ◌++◌, arith, length,
  length-append,
}
use chronolog_db.Bytes.{Bytes}

-- The lowest `8 * n` bits of a number, in `n` bytes.
unfoldable pub big_endian : ℕ → ℕ → Bytes
big_endian zero value = []
big_endian (suc n) value = big_endian n (value / 256) ++ value % 256 ∷ []

-- `(number << 8) | byte` over the bytes.
unfoldable pub from_big_endian : ℕ → Bytes → ℕ
from_big_endian number [] = number
from_big_endian number (byte ∷ bytes) = from_big_endian (number * 256 + byte) bytes

from_big_endian-append :
    (number : ℕ) (xs : Bytes) (b : ℕ)
    → from_big_endian number (xs ++ b ∷ []) ≡ from_big_endian number xs * 256 + b
unfolding from_big_endian
from_big_endian-append number [] b = refl
from_big_endian-append number (x ∷ xs) b = from_big_endian-append (number * 256 + x) xs b

pub length-big_endian : (n value : ℕ) → length (big_endian n value) ≡ n
unfolding big_endian
length-big_endian zero value = refl
length-big_endian (suc n) value = omega (
  arith,
  length-append (big_endian n (value / 256)) (value % 256 ∷ []),
  length-big_endian n (value / 256),
)

pub power_suc : (n : ℕ) → 256 ^ suc n ≡ 256 * 256 ^ n
power_suc n = omega arith

-- What is written in enough bytes is read back.
pub from_big_endian-big_endian :
    (n value : ℕ) → value < 256 ^ n → from_big_endian 0 (big_endian n value) ≡ value
unfolding big_endian from_big_endian
from_big_endian-big_endian zero value h = omega arith
from_big_endian-big_endian (suc n) value h =
    from_big_endian-append 0 (big_endian n (value / 256)) (value % 256)
    ∙ omega (arith, from_big_endian-big_endian n (value / 256) (omega (arith, power_suc n)))
