-- ===== src/Endpoints/SizeText.antt =====
-- `formatSize` of internal/handlers/memory.go, with what `fmt.Sprintf` does for `%d` and `%.1f`. A size that
-- is divided by a power of two has an exact quotient as a float64, so only the size itself is rounded, to 53
-- bits; `%.1f` rounds the quotient to the nearest tenth, and a tie to the even one.
use hotpod.Prelude.{
  ℕ, zero, suc, ◌+◌, ◌*◌, ◌/◌, ◌%◌, ◌^◌, ◌&&◌, ◌||◌, [], ◌∷◌, ◌++◌, ltb, leb, ◌==◌, if◌then◌else◌,
}
use hotpod.Prelude.Int.{ℤ, pos, negsuc}
use hotpod.Prelude.Text.{Text, codes}

-- The digits of `n` before `out`, on fuel; a number has fewer digits than it counts, and one more.
unfoldable pub print_from : ℕ → ℕ → Text → Text
print_from zero n out = out
print_from (suc fuel) n out =
    let rest = print_from fuel (n / 10) ((b'0' + n % 10) ∷ out) in
    if ltb 9 n then rest else (b'0' + n % 10) ∷ out

unfoldable pub print_nat : ℕ → Text
unfolding print_from
print_nat n = print_from (suc n) n []

-- The nearest number of units, and of two that are as near the even one.
unfoldable pub round_even : ℕ → ℕ → ℕ
round_even n unit =
    let q = n / unit in
    let r = n % unit in if ltb unit (2 * r) || ((2 * r == unit) && (q % 2 == 1)) then q + 1 else q

-- `float64(n)` for an int64: the units grow until 53 bits hold the number of them.
unfoldable pub round_bits : ℕ → ℕ → ℕ → ℕ
unfolding round_even
round_bits zero unit n = unit * round_even n unit
round_bits (suc fuel) unit n =
    let rest = round_bits fuel (2 * unit) n in
    if ltb n (2 ^ 53 * unit) then unit * round_even n unit else rest

unfoldable pub to_float : ℕ → ℕ
unfolding round_bits
to_float n = round_bits 10 1 n

-- The tenths of `float64(n)/float64(unit)`.
unfoldable pub tenths : ℕ → ℕ → ℕ
unfolding to_float round_even
tenths n unit = round_even (10 * to_float n) unit

-- `fmt.Sprintf("%.1f", float64(n)/float64(unit))`
unfoldable pub print_tenths : ℕ → ℕ → Text
print_tenths n unit = print_nat (tenths n unit / 10) ++ (b'.' ∷ (b'0' + tenths n unit % 10) ∷ [])

unfoldable pub format_size : ℤ → Text
format_size (negsuc n) = b'-' ∷ (print_nat (suc n) ++ codes "B")
format_size (pos n) =
    if leb (2 ^ 40) n
    then print_tenths n (2 ^ 40) ++ codes "TB"
    else if leb (2 ^ 30) n
    then print_tenths n (2 ^ 30) ++ codes "GB"
    else if leb (2 ^ 20) n
    then print_tenths n (2 ^ 20) ++ codes "MB"
    else if leb (2 ^ 10) n
    then print_tenths n (2 ^ 10) ++ codes "KB"
    else print_nat n ++ codes "B"
