-- ===== src/Core/Descriptor/Enum.antt =====
-- The search for an enum value by its number.
use protobluff.Common.{◌-◌, ◌^◌, ◌≤◌, ◌<◌, ◌≡◌, arith, min, none, List, ◌∷◌, length}
use protobluff.Core.Descriptor.{EnumValue, value_by_number}

-- An enum whose first value is negative and whose second is 0: the search for 0 starts at the first
-- value, finds it lower and stops, so that `pb_enum_descriptor_value_by_number` returns NULL for a
-- number that the enum has.
pub value_by_number-negative :
    (first second : EnumValue) (rest : List EnumValue)
    → 2 ^ 31 ≤ first.number
    → first.number < 2 ^ 32
    → second.number ≡ 0
    → value_by_number (first ∷ second ∷ rest) second.number ≡ none
unfolding value_by_number
value_by_number-negative first second rest h k e =
    let start : min 0 (length (first ∷ second ∷ rest) - 1) ≡ 0 = omega arith in
    rw (e, start) (ground arith)
