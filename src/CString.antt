-- ===== src/CString.antt =====
-- The string functions, core/src/string.c, over byte areas. A `char` is signed: its value as an
-- `int` stands beside its byte.
pub mod Laws
mod Tests
use skip_os.Common.{
  ℕ, zero, suc, ◌+◌, ◌-◌, ◌%◌, ◌^◌, Bool, true, false, Run, ok, ◌>>=◌, ◌>>◌, assert, ltb, leb, ◌==◌,
  if◌then◌else◌, Option, some, none,
}
use skip_os.Common.Words.{add64, sub64}

-- The byte at each address.
abbrev pub Bytes : Type 0
Bytes = ℕ → ℕ

unfoldable pub poke : Bytes → ℕ → ℕ → Bytes
poke b a v p = if p == a then v else b p

-- The loop of `memset`: rounds left, memory, address, value, index.
pub memset_loop : ℕ → Bytes → ℕ → ℕ → ℕ → Bytes
memset_loop zero b s c i = b
memset_loop (suc n) b s c i = memset_loop n (poke b (s + i) (c % 256)) s c (i + 1)

-- `c` is not negative here: the kernel passes 0 and test patterns.
pub memset : Bytes → ℕ → ℕ → ℕ → Run Bytes
memset b s c n = do assert (leb c 255); ok (memset_loop n b s c 0)

-- The loop of `memcpy`, which reads what it has already written where the areas overlap.
pub memcpy_loop : ℕ → Bytes → ℕ → ℕ → ℕ → Bytes
memcpy_loop zero b dest src i = b
memcpy_loop (suc n) b dest src i = memcpy_loop n (poke b (dest + i) (b (src + i))) dest src (i + 1)

pub memcpy : Bytes → ℕ → ℕ → ℕ → Bytes
memcpy b dest src n = memcpy_loop n b dest src 0

-- The loop of `strlen` on fuel; `none` is fuel run out.
pub strlen_loop : ℕ → Bytes → ℕ → ℕ → Option ℕ
strlen_loop zero b s len = none
strlen_loop (suc n) b s len =
    let rest = strlen_loop n b s (len + 1) in if b (s + len) == 0 then some len else rest

pub strlen : ℕ → Bytes → ℕ → Option ℕ
strlen fuel b s = strlen_loop fuel b s 0

pub strcpy : ℕ → Bytes → ℕ → ℕ → Option Bytes
strcpy fuel b dest src = elim (strlen fuel b src) [
  | none ↦ none
  | some len ↦ some (memcpy b dest src (len + 1))
]

-- The sum of the bytes, as `unsigned char`s.
pub strval_loop : ℕ → Bytes → ℕ → ℕ → ℕ → Option ℕ
strval_loop zero b s index sum = none
strval_loop (suc n) b s index sum =
    let rest = strval_loop n b s (index + 1) (add64 sum (b (s + index))) in
    if b (s + index) == 0 then some sum else rest

pub strval : ℕ → Bytes → ℕ → Option ℕ
strval fuel b s = strval_loop fuel b s 0 0

-- The difference as an `int`: the low 32 bits, in two's complement.
pub strcmp : ℕ → Bytes → ℕ → ℕ → Option ℕ
strcmp fuel b s1 s2 = elim (strval fuel b s1) [
  | none ↦ none
  | some v1 ↦ elim (strval fuel b s2) [ none ↦ none | some v2 ↦ some (sub64 v1 v2 % 2 ^ 32) ]
]

-- `s[index] == c` compares a signed `char` with an `int` in two's complement of 32 bits.
unfoldable pub char_to_int : ℕ → ℕ
char_to_int c = if ltb c 128 then c else c + 2 ^ 32 - 256

abbrev pub null : ℕ
null = 0

-- The loop of `strchr`, with the test behind it; the result is an address or null.
pub strchr_loop : ℕ → Bytes → ℕ → ℕ → ℕ → Option ℕ
strchr_loop zero b s c index = none
strchr_loop (suc n) b s c index =
    let rest = strchr_loop n b s c (index + 1) in
    if b (s + index) == 0
    then (if c == 0 then some (s + (index + 1)) else some null)
    else if char_to_int (b (s + index)) == c
    then some (s + index)
    else rest

pub strchr : ℕ → Bytes → ℕ → ℕ → Option ℕ
strchr fuel b s c = strchr_loop fuel b s c 0
