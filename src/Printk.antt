-- ===== src/Printk.antt =====
-- Formatted output, core/src/printk.c: the characters and strings that are given to the screen and to
-- the serial port.
pub mod Digits
pub mod Format
pub mod Console
mod Tests
use skip_os.Common.{
  ℕ, zero, suc, ◌+◌, ◌-◌, ◌*◌, ◌/◌, ◌%◌, ◌^◌, Bool, true, false, ltb, leb, ◌==◌, if◌then◌else◌,
  Option, none, some, List, [], ◌∷◌, ◌++◌,
}

abbrev pub out_buff_size : ℕ
out_buff_size = 64

pub data Case : Type 0 where
  uppercase lowercase : Case

-- A call of `display_char`, and one of `display_str` on the characters in front of the 0.
pub data Call : Type 0 where
  char_call : ℕ → Call
  str_call : List ℕ → Call

-- The calls made so far, in order. Nothing comes back from them to `printk`, which is the list of its
-- calls; Printk/Console is what they do to the screen and to the serial port.
abbrev pub Output : Type 0
Output = List Call

unfoldable pub call_char : ℕ → Output → Output
call_char c o = o ++ char_call c ∷ []

unfoldable pub call_str : List ℕ → Output → Output
call_str s o = o ++ str_call s ∷ []

unfoldable pub int_to_char : ℕ → Case → ℕ
int_to_char val cs =
    if ltb val 10
    then b'0' + val
    else (elim cs [ uppercase ↦ b'A' | lowercase ↦ b'a' ]) + (val - 10)

-- The first loop of `print_unsigned_long_long_varbase`: the characters in `tmp_buff`, the last one
-- written in front. `none` is fuel run out.
unfoldable pub digits_loop : ℕ → ℕ → ℕ → Case → List ℕ → Option (List ℕ)
digits_loop zero val base cs tmp = none
digits_loop (suc n) val base cs tmp =
    let rest = digits_loop n (val / base) base cs (int_to_char (val % base) cs ∷ tmp) in
    if val == 0 then some tmp else rest

-- The second loop: the characters go out from the last one written to the first.
unfoldable pub display_all : List ℕ → Output → Output
display_all [] o = o
display_all (c ∷ tmp) o = display_all tmp (call_char c o)

-- The buffer takes 64 characters; a number of 64 bits in a base of 2 or more has no more digits.
unfoldable pub print_varbase : ℕ → ℕ → Case → Output → Option Output
unfolding call_char
print_varbase val base cs o =
    if val == 0
    then some (call_char b'0' o)
    else elim (digits_loop (suc out_buff_size) val base cs []) [
      | none ↦ none
      | some tmp ↦ some (display_all tmp o)
    ]

unfoldable pub print_unsigned_long_long : ℕ → Output → Option Output
print_unsigned_long_long val = print_varbase val 10 lowercase

unfoldable pub print_hex_long_long : ℕ → Case → Output → Option Output
print_hex_long_long val = print_varbase val 16

-- `val` is the bit pattern of a `long long`; `val * -1` is its two's complement.
unfoldable pub print_long_long : ℕ → Output → Option Output
print_long_long val o =
    if leb (2 ^ 63) val
    then print_unsigned_long_long ((2 ^ 64 - val) % 2 ^ 64) (call_char b'-' o)
    else print_unsigned_long_long val o

-- The pattern of 64 bits that an `int` or a `short` of `w` bits is widened to.
unfoldable pub widen : ℕ → ℕ → ℕ
widen w val = if ltb (val % 2 ^ w) (2 ^ (w - 1)) then val % 2 ^ w else val % 2 ^ w + 2 ^ 64 - 2 ^ w

unfoldable pub print_ptr : ℕ → Output → Option Output
print_ptr p o = print_hex_long_long p uppercase (call_str (b'0' ∷ b'x' ∷ []) o)

unfoldable pub print_short : ℕ → Output → Option Output
print_short val = print_long_long (widen 16 val)

unfoldable pub print_unsigned_short : ℕ → Output → Option Output
print_unsigned_short val = print_unsigned_long_long (val % 2 ^ 16)

unfoldable pub print_hex_short : ℕ → Output → Option Output
print_hex_short val = print_hex_long_long (val % 2 ^ 16) lowercase

unfoldable pub print_int : ℕ → Output → Option Output
print_int val = print_long_long (widen 32 val)

unfoldable pub print_unsigned_int : ℕ → Output → Option Output
print_unsigned_int val = print_unsigned_long_long (val % 2 ^ 32)

unfoldable pub print_hex_int : ℕ → Output → Option Output
print_hex_int val = print_hex_long_long (val % 2 ^ 32) lowercase

unfoldable pub print_long : ℕ → Output → Option Output
print_long val = print_long_long val

unfoldable pub print_unsigned_long : ℕ → Output → Option Output
print_unsigned_long val = print_unsigned_long_long val

unfoldable pub print_hex_long : ℕ → Output → Option Output
print_hex_long val = print_hex_long_long val lowercase
