-- ===== src/Duplicate/Signals.antt =====
-- The similarity signals of app/services/duplicate_service.py. A float is the exact number that the
-- source's expression denotes, in millionths: 1.0 is `one`. The distance between two points is a
-- parameter, in millionths of `_GPS_DECAY_MAX_M` (50 m), since `math` is not modelled.
use Prim.Native.Nat.{bit_xor}
use matata_backend.Common.{
  ℕ, zero, suc, ℤ, ◌+◌, ◌-◌, ◌*◌, ◌/◌, ◌%◌, Bool, true, false, ◌&&◌, Option, none, some, List, [],
  ◌∷◌, ltb, leb, ◌==◌, if◌then◌else◌,
}
use matata_backend.Common.Lists.{length}
use matata_backend.Models.{CrisisType, InfrastructureType}

abbrev pub one : ℕ
one = 1000000

-- `_building_signal`
unfoldable pub building_signal : Option ℕ → Option ℕ → ℕ
building_signal none b = 0
building_signal (some a) none = 0
building_signal (some a) (some b) = if a == b then one else 0

-- `_gps_signal`: `max(0.0, 1.0 - distance_m / _GPS_DECAY_MAX_M)`
unfoldable pub gps_signal : (ℤ → ℤ → ℤ → ℤ → ℕ) → Option ℤ → Option ℤ → Option ℤ → Option ℤ → ℕ
gps_signal distance (some lat1) (some lng1) (some lat2) (some lng2) =
    one - distance lat1 lng1 lat2 lng2
gps_signal distance _ _ _ _ = 0

-- A hexadecimal digit's value, in either case.
unfoldable pub hex_digit : ℕ → Option ℕ
hex_digit c =
    if leb b'0' c && leb c b'9'
    then some (c - b'0')
    else if leb b'a' c && leb c b'f'
    then some (c - b'a' + 10)
    else if leb b'A' c && leb c b'F'
    then some (c - b'A' + 10)
    else none

-- `int(text, 16)` of a text of hexadecimal digits, from the value so far; `none` is `ValueError`.
unfoldable pub int16_from : ℕ → List ℕ → Option ℕ
int16_from acc [] = some acc
int16_from acc (c ∷ cs) = elim (hex_digit c) [ none ↦ none | some d ↦ int16_from (acc * 16 + d) cs ]

-- `bin(n).count("1")` of a number of at most so many bits.
unfoldable pub ones : ℕ → ℕ → ℕ
ones zero n = 0
ones (suc f) n = n % 2 + ones f (n / 2)

abbrev xor_ones : ℕ → Option ℕ → Option ℕ → Option ℕ
xor_ones bits (some a) (some b) = some (ones bits (bit_xor a b))
xor_ones bits _ _ = none

-- `_hamming_distance`, over the character codes of the two texts.
unfoldable pub hamming_distance : List ℕ → List ℕ → Option ℕ
hamming_distance a b =
    if length a == length b
    then xor_ones (length a * 4) (int16_from 0 a) (int16_from 0 b)
    else some (length a * 4)

abbrev phash_perfect : ℕ
phash_perfect = 10

abbrev phash_zero : ℕ
phash_zero = 30

-- 1.0 below 10 differing bits, 0.0 from 30, and linear in between: 50000 millionths a bit.
unfoldable pub decay : ℕ → ℕ
decay d =
    if ltb d phash_perfect
    then one
    else if leb phash_zero d
    then 0
    else one - (d - phash_perfect) * one / (phash_zero - phash_perfect)

-- The truth value of an optional text.
abbrev pub has_text : Option (List ℕ) → Bool
has_text none = false
has_text (some []) = false
has_text (some (c ∷ cs)) = true

abbrev decay_of : Option ℕ → ℕ
decay_of none = 0
decay_of (some d) = decay d

-- `_image_signal`
unfoldable pub image_signal : Option (List ℕ) → Option (List ℕ) → ℕ
image_signal (some a) (some b) =
    if has_text (some a) && has_text (some b) then decay_of (hamming_distance a b) else 0
image_signal _ _ = 0

abbrev pub crisis_eq : CrisisType → CrisisType → Bool
crisis_eq CrisisType.flood CrisisType.flood = true
crisis_eq CrisisType.earthquake CrisisType.earthquake = true
crisis_eq CrisisType.conflict CrisisType.conflict = true
crisis_eq CrisisType.wildfire CrisisType.wildfire = true
crisis_eq CrisisType.fire CrisisType.fire = true
crisis_eq CrisisType.other CrisisType.other = true
crisis_eq _ _ = false

abbrev pub infra_eq : InfrastructureType → InfrastructureType → Bool
infra_eq InfrastructureType.residential InfrastructureType.residential = true
infra_eq InfrastructureType.commercial InfrastructureType.commercial = true
infra_eq InfrastructureType.government InfrastructureType.government = true
infra_eq InfrastructureType.utilities InfrastructureType.utilities = true
infra_eq InfrastructureType.transport InfrastructureType.transport = true
infra_eq InfrastructureType.community InfrastructureType.community = true
infra_eq _ _ = false

abbrev pub int_of : Bool → ℕ
int_of true = 1
int_of false = 0

-- `_category_signal`
unfoldable pub category_signal :
    CrisisType → InfrastructureType → CrisisType → InfrastructureType → ℕ
category_signal crisis_a infra_a crisis_b infra_b =
    (int_of (crisis_eq crisis_a crisis_b) + int_of (infra_eq infra_a infra_b)) * (one / 2)
