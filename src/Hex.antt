-- ===== src/Hex.antt =====
-- Bytes printed in hexadecimal, as generateSessionId and generateSecureSalt do with std::hex.
use bartimaeus_app.Base.{
  ℕ, suc, ◌+◌, ◌-◌, ◌*◌, ◌/◌, ◌%◌, ◌<◌, ◌≡◌, refl, ap, List, [], ◌∷◌, ◌++◌, arith, ltb,
  if◌then◌else◌, length, All,
}
use bartimaeus_app.Base.Bytes.{Bytes}

-- std::hex prints one digit in lower case.
unfoldable pub hex_digit : ℕ → ℕ
hex_digit d = if ltb d 10 then 48 + d else 87 + d

-- std::setw(2) with std::setfill('0')
unfoldable pub hex_byte : ℕ → Bytes
unfolding hex_digit
hex_byte b = hex_digit (b / 16) ∷ hex_digit (b % 16) ∷ []

unfoldable pub hex : List ℕ → Bytes
unfolding hex_byte
hex [] = []
hex (b ∷ bs) = hex_byte b ++ hex bs

-- The digits one by one, with no width.
unfoldable pub hex_digits : List ℕ → Bytes
unfolding hex_digit
hex_digits [] = []
hex_digits (d ∷ ds) = hex_digit d ∷ hex_digits ds

length-hex : (bs : List ℕ) → length (hex bs) ≡ 2 * length bs
unfolding hex
length-hex [] = refl
length-hex (b ∷ bs) = omega (arith, length-hex bs)

length-hex_digits : (ds : List ℕ) → length (hex_digits ds) ≡ length ds
unfolding hex_digits
length-hex_digits [] = refl
length-hex_digits (d ∷ ds) = ap suc (length-hex_digits ds)

-- The reader that inverts the printer.
unhex_digit : ℕ → ℕ
unhex_digit c = if ltb c 58 then c - 48 else c - 87

pub unhex : Bytes → List ℕ
unhex (h ∷ l ∷ cs) = (unhex_digit h * 16 + unhex_digit l) ∷ unhex cs
unhex _ = []

abbrev pub IsByte : ℕ → Type 0
IsByte b = b < 256

unhex-hex_digit : (d : ℕ) → d < 16 → unhex_digit (hex_digit d) ≡ d
unfolding unhex_digit hex_digit
unhex-hex_digit d h = ground arith

-- The bytes are read back from their two hexadecimal digits each.
unhex-hex : (bs : List ℕ) → All IsByte bs → unhex (hex bs) ≡ bs
unfolding unhex hex
unhex-hex [] h = refl
unhex-hex (b ∷ bs) (p, h) =
    ground (arith, unhex-hex_digit (b / 16), unhex-hex_digit (b % 16), unhex-hex bs h)
