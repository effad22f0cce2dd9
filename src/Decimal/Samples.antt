-- ===== src/Decimal/Samples.antt =====
-- Runs of the decimal printer and reader, and their round trip at a process id.
use herdr_tokens.Prelude.{◌≡◌, refl, codes, none, some, []}
use herdr_tokens.Prelude.Int.{pos, negsuc}
use herdr_tokens.Decimal.{itoa, atoi}

texts : (itoa 0 ≡ "0") × (itoa 90000 ≡ "90000")
unfolding itoa
texts = (refl, refl)

readings :
    (atoi (codes "-12") ≡ some (negsuc 11))
    × (atoi (codes "+7") ≡ some (pos 7))
    × (atoi (codes "9223372036854775808") ≡ none)
    × (atoi (codes "-9223372036854775808") ≡ some (negsuc 9223372036854775807))
    × (atoi (codes "1_0") ≡ none)
    × (atoi [] ≡ none)
unfolding atoi
readings = (refl, refl, refl, refl, refl, refl)
