-- ===== src/UserStack/Mac.antt =====
-- MAC addresses as text: print_mac writes what str2mac reads.
use personal_c_cpp_back_end.Base.{
  ℕ, ◌+◌, ◌-◌, ◌*◌, ◌/◌, ◌%◌, ◌<◌, ◌≡◌, ◌∙◌, Bool, true, false, ◌&&◌, Option, none, some, List, [],
  ◌∷◌, ltb, leb, ◌==◌, if◌then◌else◌, length, set, arith,
}

-- "%02x" of a byte.
unfoldable pub hex_digit : ℕ → ℕ
hex_digit d = if ltb d 10 then b'0' + d else b'a' + (d - 10)

unfoldable pub hex_byte : ℕ → List ℕ → List ℕ
unfolding hex_digit
hex_byte b rest = hex_digit (b / 16) ∷ hex_digit (b % 16) ∷ rest

-- The text that print_mac writes: a colon behind each byte but the last.
unfoldable pub print_mac : List ℕ → List ℕ
print_mac [] = []
print_mac (b ∷ []) = hex_byte b []
print_mac (b ∷ c ∷ rest) = hex_byte b (b':' ∷ print_mac (c ∷ rest))

-- The value of a character that str2mac accepts.
unfoldable pub hex_value : ℕ → Option ℕ
hex_value c =
    if leb b'a' c && leb c b'f'
    then some (c - b'a' + 10)
    else if leb b'A' c && leb c b'F'
    then some (c - b'A' + 10)
    else if leb b'0' c && leb c b'9'
    then some (c - b'0')
    else none

abbrev pub eth_len : ℕ
eth_len = 6

-- The loop of str2mac and what follows it. `mac` is the caller's buffer; the flag is `false` for the
-- return value -1. `val` is a byte: (val << 4) + digit drops what leaves it.
unfoldable pub str2mac_from : List ℕ → List ℕ → ℕ → ℕ → List ℕ × Bool
unfolding hex_value
str2mac_from [] mac idx val = if ltb idx eth_len then (set mac idx val, true) else (mac, false)
str2mac_from (c ∷ cs) mac idx val =
    let next_byte = str2mac_from cs (set mac idx val) (idx + 1) 0 in
    let digit = λ (d : ℕ). str2mac_from cs mac idx ((val * 16 + d) % 256) in
    if ltb idx eth_len
    then (if c == b':'
        then next_byte
        else elim (hex_value c) [ none ↦ (mac, false) | some d ↦ digit d ])
    else (mac, false)

unfoldable pub str2mac : List ℕ → List ℕ → List ℕ × Bool
str2mac mac macstr = str2mac_from macstr mac 0 0

hex_value-hex_digit : (d : ℕ) → d < 16 → hex_value (hex_digit d) ≡ some d
unfolding hex_value hex_digit
hex_value-hex_digit d h = ground arith

hex_digit-ne-colon : (d : ℕ) → d < 16 → (hex_digit d == b':') ≡ false
unfolding hex_digit
hex_digit-ne-colon d h = ground arith

-- The two digits of a byte put the byte together.
str2mac_from-hex_byte :
    (b : ℕ) (rest mac : List ℕ) (idx : ℕ)
    → b < 256
    → idx < eth_len
    → str2mac_from (hex_byte b rest) mac idx 0 ≡ str2mac_from rest mac idx b
unfolding str2mac_from hex_byte
str2mac_from-hex_byte b rest mac idx small inside =
    let test : ltb idx eth_len ≡ true = ground arith in
    let high : b / 16 < 16 = omega arith in
    let low : b % 16 < 16 = omega arith in
    let whole : ((0 * 16 + b / 16) % 256 * 16 + b % 16) % 256 ≡ b = omega arith in
    rw (
      test,
      hex_digit-ne-colon (b / 16) high,
      hex_value-hex_digit (b / 16) high,
      test,
      hex_digit-ne-colon (b % 16) low,
      hex_value-hex_digit (b % 16) low,
      whole,
    )

str2mac_from-colon :
    (rest mac : List ℕ) (idx val : ℕ)
    → idx < eth_len
    → str2mac_from (b':' ∷ rest) mac idx val ≡ str2mac_from rest (set mac idx val) (idx + 1) 0
unfolding str2mac_from
str2mac_from-colon rest mac idx val inside =
    let test : ltb idx eth_len ≡ true = ground arith in rw test

byte_then_colon :
    (b : ℕ) (rest mac : List ℕ) (idx : ℕ)
    → b < 256
    → idx < eth_len
    → str2mac_from (hex_byte b (b':' ∷ rest)) mac idx 0
      ≡ str2mac_from rest (set mac idx b) (idx + 1) 0
byte_then_colon b rest mac idx small inside =
    str2mac_from-hex_byte b (b':' ∷ rest) mac idx small inside
    ∙ str2mac_from-colon rest mac idx b inside

last_byte :
    (b : ℕ) (mac : List ℕ) → b < 256 → str2mac_from (hex_byte b []) mac 5 0 ≡ (set mac 5 b, true)
unfolding str2mac_from
last_byte b mac small = str2mac_from-hex_byte b [] mac 5 small (omega arith)

abbrev pub mac_of : (a b c d e f : ℕ) → List ℕ
mac_of a b c d e f = a ∷ b ∷ c ∷ d ∷ e ∷ f ∷ []

-- str2mac reads back every MAC address that print_mac writes, whatever the buffer held.
pub str2mac-print_mac :
    (a b c d e f : ℕ) (buffer : List ℕ)
    → (a < 256) × (b < 256) × (c < 256) × (d < 256) × (e < 256) × (f < 256)
    → length buffer ≡ eth_len
    → str2mac buffer (print_mac (mac_of a b c d e f)) ≡ (mac_of a b c d e f, true)
unfolding str2mac print_mac
str2mac-print_mac a b c d e f (u ∷ v ∷ w ∷ x ∷ y ∷ z ∷ []) bytes size =
    byte_then_colon a _ (u ∷ v ∷ w ∷ x ∷ y ∷ z ∷ []) 0 bytes.0 (omega arith)
    ∙ byte_then_colon b _ (a ∷ v ∷ w ∷ x ∷ y ∷ z ∷ []) 1 bytes.1 (omega arith)
    ∙ byte_then_colon c _ (a ∷ b ∷ w ∷ x ∷ y ∷ z ∷ []) 2 bytes.2 (omega arith)
    ∙ byte_then_colon d _ (a ∷ b ∷ c ∷ x ∷ y ∷ z ∷ []) 3 bytes.3 (omega arith)
    ∙ byte_then_colon e _ (a ∷ b ∷ c ∷ d ∷ y ∷ z ∷ []) 4 bytes.4 (omega arith)
    ∙ last_byte f (a ∷ b ∷ c ∷ d ∷ e ∷ z ∷ []) bytes.5
str2mac-print_mac a b c d e f _ bytes size = absurd (omega arith)
