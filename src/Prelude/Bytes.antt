-- ===== src/Prelude/Bytes.antt =====
-- Bytes and bit fields: facts about masks, checked over their whole range.
use Prim.Native.Nat.{ℕ, zero, suc, ◌+◌, ◌*◌, ◌^◌, ◌<◌, bit_and, bit_or}
use mathlib.Core.Path.{◌≡◌, refl}
use mathlib.Core.Bool.{Bool, true, false, ◌&&◌}
use mathlib.Core.List.{List, [], ◌∷◌}
use native.Mathlib.Omega.{arith}
use gps_base_station.Prelude.Tests.{◌==◌, ==_iff, ltb, ltb→lt}

-- A test of all numbers under a limit.
unfoldable pub passes : (ℕ → Bool) → ℕ → Bool
passes test zero = true
passes test (suc top) = passes test top && test top

pub passes_lem :
    (test : ℕ → Bool) (limit value : ℕ)
    → value < limit
    → passes test limit ≡ true
    → test value ≡ true
unfolding passes
passes_lem test zero value small ok = absurd (omega arith)
passes_lem test (suc top) value small ok = ground (arith, passes_lem test top value)

Bool_eq : Bool → Bool → Bool
Bool_eq true b = b
Bool_eq false true = false
Bool_eq false false = true

-- Every element is a byte.
abbrev pub AllBytes : List ℕ → Type 0
AllBytes [] = Unit {0}
AllBytes (b ∷ bs) = (b < 256) × AllBytes bs

low_two_table : passes (λ b. ltb (bit_and b 0x03) 4) 256 ≡ true
unfolding passes
low_two_table = refl

pub low_two_lt : (b : ℕ) → b < 256 → bit_and b 0x03 < 4
low_two_lt b h = ltb→lt _ _ (passes_lem _ 256 b h low_two_table)

high_six_table : passes (λ b. Bool_eq (bit_and b 0xFC == 0) (ltb b 4)) 256 ≡ true
unfolding passes Bool_eq
high_six_table = refl

-- The upper six bits are clear exactly below 4.
pub high_six_clear : (b : ℕ) → b < 256 → (bit_and b 0xFC == 0) ≡ ltb b 4
unfolding Bool_eq
high_six_clear b h = ground (arith, passes_lem _ 256 b h high_six_table)

join_table : passes (λ h. passes (λ l. bit_or (h * 2 ^ 8) l == h * 256 + l) 256) 4 ≡ true
unfolding passes
join_table = refl

-- Two bits above a byte.
pub join_lem : (h l : ℕ) → h < 4 → l < 256 → bit_or (h * 2 ^ 8) l ≡ h * 256 + l
join_lem h l p q =
    (==_iff _ _).0 (passes_lem _ 256 l q (passes_lem (λ h. passes _ 256) 4 h p join_table))
