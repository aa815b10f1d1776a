-- ===== src/Shared/Text.antt =====
-- What the program uses of strconv: `Atoi`, over the characters' codes.
use Prim.Native.Nat.{ℕ, ◌+◌, ◌-◌, ◌*◌, ◌^◌}
use Prim.Native.Char.{code}
use Prim.Native.String.{String}
use mathlib.Core.Path.{◌≡◌, refl}
use mathlib.Core.Bool.{Bool, ◌&&◌}
use mathlib.Core.Option.{Option, none, some}
use mathlib.Core.List.{List, [], ◌∷◌}
use go_httpclient.Shared.Tests.{ltb, leb, ◌==◌, if◌then◌else◌}
use go_httpclient.Shared.Int.{ℤ, pos, negsuc}

abbrev pub codes : String → List ℕ
codes String.[] = []
codes (String.◌∷◌ c s) = code c ∷ codes s

abbrev is_digit : ℕ → Bool
is_digit c = leb b'0' c && leb c b'9'

-- The number that some decimal digits stand for, behind those read already.
digits_from : ℕ → List ℕ → Option ℕ
digits_from n [] = some n
digits_from n (c ∷ cs) =
    let rest = digits_from (n * 10 + (c - b'0')) cs in if is_digit c then rest else none

digits : List ℕ → Option ℕ
unfolding digits_from
digits [] = none
digits (c ∷ cs) = digits_from 0 (c ∷ cs)

abbrev in_range : Option ℕ → Option ℤ
in_range none = none
in_range (some n) = if ltb n (2 ^ 63) then some (pos n) else none

abbrev in_negative_range : Option ℕ → Option ℤ
in_negative_range none = none
in_negative_range (some n) =
    if leb n (2 ^ 63) then some (if n == 0 then pos 0 else negsuc (n - 1)) else none

-- An optional sign and at least one digit, of an int64; else `Atoi` fails.
unfoldable pub atoi_codes : List ℕ → Option ℤ
unfolding digits
atoi_codes [] = none
atoi_codes (c ∷ cs) =
    if c == b'-'
    then in_negative_range (digits cs)
    else if c == b'+'
    then in_range (digits cs)
    else in_range (digits (c ∷ cs))

unfoldable pub atoi : String → Option ℤ
unfolding atoi_codes
atoi s = atoi_codes (codes s)

atoi_test : atoi "-120" ≡ some (negsuc 119)
unfolding atoi
atoi_test = refl
