-- ===== src/Policygen/Quote.antt =====
-- internal/policygen/generator.go: `%q` of a message, which strconv.Quote prints.
use Prim.Native.Char.{Char, code}
use Prim.Native.Nat.{◌/◌, ◌%◌}
use Prim.Native.String.{String, slice}
use cervo_rules.Prelude.{ℕ, suc, ◌&◌, ◌||◌, if◌then◌else◌, nat_beq, ltb}
use cervo_rules.Text.{Text}

-- A hexadecimal digit.
abbrev hex : ℕ → Text
hex d = slice "0123456789abcdef" d (suc d)

-- One character under `strconv.Quote`, on ASCII.
unfoldable pub quote_char : Char → Text
quote_char c =
    if nat_beq (code c) 34
    then "\\\""
    else if nat_beq (code c) 92
    then "\\\\"
    else if nat_beq (code c) 7
    then "\\a"
    else if nat_beq (code c) 8
    then "\\b"
    else if nat_beq (code c) 9
    then "\\t"
    else if nat_beq (code c) 10
    then "\\n"
    else if nat_beq (code c) 11
    then "\\v"
    else if nat_beq (code c) 12
    then "\\f"
    else if nat_beq (code c) 13
    then "\\r"
    else if ltb (code c) 32 || nat_beq (code c) 127
    then "\\x" & (hex (code c / 16) & hex (code c % 16))
    else String.◌∷◌ c String.[]

unfoldable pub quote_chars : Text → Text
quote_chars String.[] = "\""
quote_chars (String.◌∷◌ c s) = quote_char c & quote_chars s

-- `%q`
unfoldable pub quote : Text → Text
quote s = "\"" & quote_chars s
