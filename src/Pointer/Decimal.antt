-- ===== src/Pointer/Decimal.antt =====
-- Array indices in a pointer: printed in decimal, without an escape.
use jawohl.Prelude.{
  ℕ, zero, suc, ◌+◌, ◌%◌, ◌/◌, ◌≤◌, ◌≡◌, refl, false, ◌||◌, [], ◌∷◌, ◌++◌, arith, Bytes,
}
use jawohl.Pointer.{contains_byte, escape_token, decimal_fuel, decimal}

abbrev AllDigits : Bytes → Type 0
AllDigits [] = Unit
AllDigits (b ∷ bs) = (b'0' ≤ b) × (b ≤ b'9') × AllDigits bs

AllDigits-append :
    (ds : Bytes) (d : ℕ) → AllDigits ds → b'0' ≤ d → d ≤ b'9' → AllDigits (ds ++ d ∷ [])
AllDigits-append [] d h lo hi = (lo, hi, tt)
AllDigits-append (b ∷ bs) d h lo hi = (h.0, h.1, AllDigits-append bs d h.2 lo hi)

decimal_fuel-AllDigits : (fuel n : ℕ) → AllDigits (decimal_fuel fuel n)
unfolding decimal_fuel
decimal_fuel-AllDigits zero n = tt
decimal_fuel-AllDigits (suc f) n = ground (
  arith,
  AllDigits-append (decimal_fuel f (n / 10)) (b'0' + n % 10) (decimal_fuel-AllDigits f (n / 10)),
)

AllDigits-plain :
    (ds : Bytes) → AllDigits ds → (contains_byte b'~' ds || contains_byte b'/' ds) ≡ false
unfolding contains_byte
AllDigits-plain [] h = refl
AllDigits-plain (b ∷ bs) h = ground (arith, AllDigits-plain bs h.2)

-- A decimal index needs no escape.
pub escape_token-decimal : (n : ℕ) → escape_token (decimal n) ≡ decimal n
unfolding escape_token decimal
escape_token-decimal n =
    ground (arith, AllDigits-plain (decimal n) (decimal_fuel-AllDigits (suc n) n))
