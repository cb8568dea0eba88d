-- ===== src/Live/Canonical/Escape.antt =====
-- `json.dumps` of a text with `ensure_ascii`: a text in quotes, with escapes for what is not
-- printable ASCII. A code point beyond the first plane becomes two halves.
use blastoise.Base.{ℕ, ◌+◌, ◌-◌, ◌/◌, ◌%◌, ◌&&◌, [], ◌∷◌, leb, ltb, nat_beq, Text, if◌then◌else◌}

abbrev pub hex_digit : ℕ → ℕ
hex_digit d = if ltb d 10 then b'0' + d else b'a' + (d - 10)

-- `\u` and four digits, in front of the rest.
unfoldable pub unicode : ℕ → Text → Text
unicode c rest =
    b'\\'
    ∷ b'u'
    ∷ hex_digit (c / 4096)
    ∷ hex_digit (c / 256 % 16)
    ∷ hex_digit (c / 16 % 16)
    ∷ hex_digit (c % 16)
    ∷ rest

-- The escape of one code point, in front of the rest.
unfoldable pub escape : ℕ → Text → Text
escape c rest =
    if nat_beq c b'"'
    then b'\\' ∷ b'"' ∷ rest
    else if nat_beq c b'\\'
    then b'\\' ∷ b'\\' ∷ rest
    else if nat_beq c 10
    then b'\\' ∷ b'n' ∷ rest
    else if nat_beq c 13
    then b'\\' ∷ b'r' ∷ rest
    else if nat_beq c 9
    then b'\\' ∷ b't' ∷ rest
    else if nat_beq c 12
    then b'\\' ∷ b'f' ∷ rest
    else if nat_beq c 8
    then b'\\' ∷ b'b' ∷ rest
    else if leb 32 c && leb c 126
    then c ∷ rest
    else if ltb c 65536
    then unicode c rest
    else unicode (55296 + (c - 65536) / 1024 % 1024) (unicode (56320 + (c - 65536) % 1024) rest)

unfoldable pub print_chars : Text → Text → Text
unfolding escape
print_chars [] rest = b'"' ∷ rest
print_chars (c ∷ cs) rest = escape c (print_chars cs rest)

unfoldable pub print_text : Text → Text → Text
unfolding print_chars
print_text t rest = b'"' ∷ print_chars t rest
