-- ===== src/ScanCode/Tests.antt =====
-- Scan codes in the map and outside it.
use skip_os.Common.{[], ◌∷◌, ◌≡◌, refl, false}
use skip_os.ScanCode.{char_from_scode, scode_loop}

-- A code that is not in the map is looked for behind the array.
read_behind : char_from_scode ((b'?', b'?', 0x7F) ∷ []) 0x7F false ≡ b'?'
unfolding char_from_scode scode_loop
read_behind = refl
