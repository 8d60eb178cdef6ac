-- ===== src/ScanCode.antt =====
-- The map from scan codes to characters, core/src/scan_code.c.
pub mod Lookup
mod Tests
use skip_os.Common.{ℕ, ◌==◌, Bool, if◌then◌else◌, List, [], ◌∷◌, ◌++◌, take}

-- `ScodeMapElem`: the character, the one with shift, and the scan code.
abbrev pub ScodeMapElem : Type 0
ScodeMapElem = ℕ × ℕ × ℕ

abbrev pub sc_map : List ScodeMapElem
sc_map =
    (b'a', b'A', 0x1C)
    ∷ (b'b', b'B', 0x32)
    ∷ (b'c', b'C', 0x21)
    ∷ (b'd', b'D', 0x23)
    ∷ (b'e', b'E', 0x24)
    ∷ (b'f', b'F', 0x2B)
    ∷ (b'g', b'G', 0x34)
    ∷ (b'h', b'H', 0x33)
    ∷ (b'i', b'I', 0x43)
    ∷ (b'j', b'J', 0x3B)
    ∷ (b'k', b'K', 0x42)
    ∷ (b'l', b'L', 0x4B)
    ∷ (b'm', b'M', 0x3A)
    ∷ (b'n', b'N', 0x31)
    ∷ (b'o', b'O', 0x44)
    ∷ (b'p', b'P', 0x4D)
    ∷ (b'q', b'Q', 0x15)
    ∷ (b'r', b'R', 0x2D)
    ∷ (b's', b'S', 0x1B)
    ∷ (b't', b'T', 0x2C)
    ∷ (b'u', b'U', 0x3C)
    ∷ (b'v', b'V', 0x2A)
    ∷ (b'w', b'W', 0x1D)
    ∷ (b'x', b'X', 0x22)
    ∷ (b'y', b'Y', 0x35)
    ∷ (b'z', b'Z', 0x1A)
    ∷ (b'1', b'!', 0x16)
    ∷ (b'2', b'@', 0x1E)
    ∷ (b'3', b'#', 0x26)
    ∷ (b'4', b'$', 0x25)
    ∷ (b'5', b'%', 0x2E)
    ∷ (b'6', b'^', 0x36)
    ∷ (b'7', b'&', 0x3D)
    ∷ (b'8', b'*', 0x3E)
    ∷ (b'9', b'(', 0x46)
    ∷ (b'0', b')', 0x45)
    ∷ (b'\n', b'\n', 0x5A)
    ∷ (9, 9, 0x0D)
    ∷ (b',', b'<', 0x41)
    ∷ (b'.', b'>', 0x49)
    ∷ (b'/', b'?', 0x4A)
    ∷ (b' ', b' ', 0x29)
    ∷ []

-- `sizeof(sc_map)`: the number of bytes, three for each element.
abbrev pub map_size : ℕ
map_size = 126

-- The loop over the elements that are left; behind the last one the code is not found.
unfoldable pub scode_loop : List ScodeMapElem → ℕ → Bool → ℕ
scode_loop [] scode shift_pressed = b' '
scode_loop ((c, shift_c, s) ∷ rest) scode shift_pressed =
    let later = scode_loop rest scode shift_pressed in
    if s == scode then (if shift_pressed then shift_c else c) else later

-- The loop runs to the number of bytes and not of elements: `behind` is what it reads behind the
-- array.
unfoldable pub char_from_scode : List ScodeMapElem → ℕ → Bool → ℕ
char_from_scode behind = scode_loop (take map_size (sc_map ++ behind))
