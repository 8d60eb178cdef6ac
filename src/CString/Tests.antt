-- ===== src/CString/Tests.antt =====
-- The string functions on concrete areas, with the inputs of unit_test/src/string_test.c.
use skip_os.Common.{ℕ, ◌≡◌, ◌==◌, if◌then◌else◌, arith, List, [], ◌∷◌, some}
use skip_os.CString.{Bytes, strlen}
use skip_os.CString.Laws.{Str, strlen-length}

-- "ABC" at 100 and "CBA" at 200.
abbrev area : Bytes
area p =
    if p == 100
    then b'A'
    else if p == 101
    then b'B'
    else if p == 102
    then b'C'
    else if p == 200
    then b'C'
    else if p == 201
    then b'B'
    else if p == 202
    then b'A'
    else 0

abbrev abc : List ℕ
abc = b'A' ∷ b'B' ∷ b'C' ∷ []

abbrev cba : List ℕ
cba = b'C' ∷ b'B' ∷ b'A' ∷ []

abc-Str : Str area 100 abc
abc-Str = omega arith

cba-Str : Str area 200 cba
cba-Str = omega arith

strlen-length_example : strlen 10 area 100 ≡ some 3
strlen-length_example = strlen-length abc 10 area 100 abc-Str (omega arith)
