-- ===== src/Canonical/Cbor/Bignums.antt =====
-- For packages/canonical/src/cbor.ts: the minimal bytes of a magnitude, and what is read of them.
use chronolog_db.Prelude.{
  ℕ, zero, suc, ◌+◌, ◌*◌, ◌/◌, ◌%◌, ◌^◌, ◌≤◌, ◌<◌, ◌≡◌, refl, ◌∙◌, true, ◌∷◌, arith, length, ltb,
  Bool-cases, inl, inr,
}
use chronolog_db.Bytes.{Bytes}
use chronolog_db.Canonical.BigEndian.{from_big_endian, power_suc}
use chronolog_db.Canonical.Cbor.{octets}
use chronolog_db.Canonical.Cbor.Decode.{starts_above_zero}

octets_zero : (fuel : ℕ) (above : Bytes) → octets fuel 0 above ≡ above
unfolding octets
octets_zero zero above = refl
octets_zero (suc fuel) above = refl

positive_power : (k : ℕ) → 0 < 256 ^ k
positive_power zero = omega arith
positive_power (suc k) = omega (arith, positive_power k, power_suc k)

-- The number is enough fuel: its octets are those of the number.
pub from_big_endian-octets :
    (fuel value : ℕ) (above : Bytes)
    → value ≤ fuel
    → from_big_endian 0 (octets fuel value above) ≡ from_big_endian value above
unfolding octets from_big_endian
from_big_endian-octets zero zero above h = refl
from_big_endian-octets zero (suc r) above h = absurd (omega arith)
from_big_endian-octets (suc fuel) zero above h = refl
from_big_endian-octets (suc fuel) (suc r) above h =
    let whole : suc r / 256 * 256 + suc r % 256 ≡ suc r = omega arith in
    from_big_endian-octets fuel (suc r / 256) (suc r % 256 ∷ above) (omega arith) ∙ rw whole refl

length-octets_more :
    (fuel value : ℕ) (above : Bytes) → length above ≤ length (octets fuel value above)
unfolding octets
length-octets_more zero value above = omega arith
length-octets_more (suc fuel) zero above = omega arith
length-octets_more (suc fuel) (suc r) above =
    omega (arith, length-octets_more fuel (suc r / 256) (suc r % 256 ∷ above))

-- A number of more than `k` bytes has more than `k` octets.
pub length-octets :
    (k fuel value : ℕ) (above : Bytes)
    → value ≤ fuel
    → 256 ^ k ≤ value
    → k + length above < length (octets fuel value above)
unfolding octets
length-octets k zero value above h big = absurd (omega (arith, positive_power k))
length-octets k (suc fuel) zero above h big = absurd (omega (arith, positive_power k))
length-octets zero (suc fuel) (suc r) above h big =
    omega (arith, length-octets_more fuel (suc r / 256) (suc r % 256 ∷ above))
length-octets (suc k) (suc fuel) (suc r) above h big = omega (
  arith,
  length-octets k fuel (suc r / 256) (suc r % 256 ∷ above) (omega arith)
      (omega (arith, power_suc k)),
)

-- The first octet of a number that is not zero is not zero.
pub octets-starts_above_zero :
    (fuel value : ℕ) (above : Bytes)
    → value ≤ fuel
    → 0 < value
    → starts_above_zero (octets fuel value above) ≡ true
unfolding octets
octets-starts_above_zero zero value above h big = absurd (omega arith)
octets-starts_above_zero (suc fuel) zero above h big = absurd (omega arith)
octets-starts_above_zero (suc fuel) (suc r) above h big = elim (Bool-cases (ltb r 255)) [
  | inl last ↦
      let done : suc r / 256 ≡ 0 = ground arith in
      rw (done, octets_zero fuel (suc r % 256 ∷ above)) (ground arith)
  | inr more ↦
      octets-starts_above_zero fuel (suc r / 256) (suc r % 256 ∷ above) (omega arith) (ground arith)
]
