-- ===== src/Text/Chars.antt =====
-- The character classes of the regular expressions and guards, on code units.
use nitip_cuy.Prelude.{ℕ, Bool, false, ◌&&◌, ◌||◌, List, [], ◌∷◌, leb, ◌==◌, length, all}

-- What `trim` strips: the WhiteSpace and LineTerminator code units of ECMAScript.
unfoldable pub is_space : ℕ → Bool
is_space c =
    (leb 9 c && leb c 13)
    || (c == 32)
    || (c == 160)
    || (c == 0x1680)
    || (leb 0x2000 c && leb c 0x200a)
    || (c == 0x2028)
    || (c == 0x2029)
    || (c == 0x202f)
    || (c == 0x205f)
    || (c == 0x3000)
    || (c == 0xfeff)

abbrev pub is_digit : ℕ → Bool
is_digit c = leb b'0' c && leb c b'9'

abbrev pub is_lower : ℕ → Bool
is_lower c = leb b'a' c && leb c b'z'

abbrev pub is_upper : ℕ → Bool
is_upper c = leb b'A' c && leb c b'Z'

-- `[A-Za-z0-9]`
abbrev pub is_alnum : ℕ → Bool
is_alnum c = is_digit c || is_lower c || is_upper c

-- `[A-Za-z0-9._:-]`
abbrev pub is_safe_visible : ℕ → Bool
is_safe_visible c = is_alnum c || (c == b'.') || (c == b'_') || (c == b':') || (c == b'-')

-- `[a-z0-9-]`
abbrev pub is_slug : ℕ → Bool
is_slug c = is_digit c || is_lower c || (c == b'-')

-- `[a-z0-9.-]`
abbrev pub is_dotted_slug : ℕ → Bool
is_dotted_slug c = is_slug c || (c == b'.')

-- `[a-f0-9]`
abbrev pub is_lower_hex : ℕ → Bool
is_lower_hex c = is_digit c || (leb b'a' c && leb c b'f')

-- `/[\u0000-\u001f\u007f]/`
abbrev pub is_control : ℕ → Bool
is_control c = leb c 0x1f || (c == 0x7f)

-- `^[first][rest]{minimum,maximum}$`
unfoldable pub matches : (ℕ → Bool) → (ℕ → Bool) → ℕ → ℕ → List ℕ → Bool
matches first rest minimum maximum [] = false
matches first rest minimum maximum (c ∷ s) =
    first c && all rest s && leb minimum (length s) && leb (length s) maximum

-- `^[class]{count}$`
unfoldable pub matches_exactly : (ℕ → Bool) → ℕ → List ℕ → Bool
matches_exactly class count s = all class s && (length s == count)
