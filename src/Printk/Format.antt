-- ===== src/Printk/Format.antt =====
-- `printk` itself, core/src/printk.c: the walk over the format and the arguments.
pub mod Pieces
pub mod Whole
use skip_os.Common.{
  ℕ, ◌%◌, ◌^◌, Bool, ◌==◌, ◌||◌, if◌then◌else◌, Option, none, some, List, [], ◌∷◌, Run, ok, halted,
}
use skip_os.Printk.{
  Output, lowercase, call_char, call_str, print_ptr, print_short, print_unsigned_short,
  print_hex_short, print_int, print_unsigned_int, print_hex_int, print_long, print_unsigned_long,
  print_hex_long, print_long_long, print_unsigned_long_long, print_hex_long_long,
}

-- An argument as it is passed: an `int` or `unsigned int`, an integer or a pointer of 64 bits, each
-- by its bit pattern, or a string.
pub data Arg : Type 0 where
  int long ptr : ℕ → Arg
  str : List ℕ → Arg

-- What a directive leaves: the arguments behind its own, and the output. `none` is an argument that
-- is missing or of another type, which C leaves undefined; `halted` is a failed assertion.
abbrev pub Printed : Type 0
Printed = Option (Run (List Arg × Output))

unfoldable pub printed : List Arg → Option Output → Printed
printed args none = none
printed args (some o) = some (ok (args, o))

-- `va_arg` of each type, and what is printed with it.
unfoldable pub with_int : (ℕ → Output → Option Output) → List Arg → Output → Printed
with_int show (int v ∷ args) o = printed args (show (v % 2 ^ 32) o)
with_int show args o = none

unfoldable pub with_long : (ℕ → Output → Option Output) → List Arg → Output → Printed
with_long show (long v ∷ args) o = printed args (show (v % 2 ^ 64) o)
with_long show args o = none

unfoldable pub with_ptr : (ℕ → Output → Option Output) → List Arg → Output → Printed
with_ptr show (ptr v ∷ args) o = printed args (show (v % 2 ^ 64) o)
with_ptr show args o = none

unfoldable pub with_str : (List ℕ → Output → Option Output) → List Arg → Output → Printed
with_str show (str s ∷ args) o = printed args (show s o)
with_str show args o = none

-- The outer `switch`, but for the letters of a size.
unfoldable pub directive : ℕ → List Arg → Output → Printed
directive f args o =
    if f == b'%'
    then some (ok (args, call_char b'%' o))
    else if f == b'c'
    then with_int (λ v o1. some (call_char (v % 256) o1)) args o
    else if f == b's'
    then with_str (λ s o1. some (call_str s o1)) args o
    else if f == b'p'
    then with_ptr print_ptr args o
    else if f == b'd'
    then with_int print_int args o
    else if f == b'u'
    then with_int print_unsigned_int args o
    else if f == b'x'
    then with_int print_hex_int args o
    else some halted

-- An inner `switch`, with the three functions it calls.
unfoldable pub inner_switch : Printed → Printed → Printed → ℕ → Printed
inner_switch signed unsigned hex f =
    if f == b'd'
    then signed
    else if f == b'u'
    then unsigned
    else if f == b'x'
    then hex
    else some halted

unfoldable pub sized_directive : ℕ → ℕ → List Arg → Output → Printed
sized_directive size f args o =
    if size == b'h'
    then inner_switch (with_int print_short args o) (with_int print_unsigned_short args o)
        (with_int print_hex_short args o) f
    else if size == b'l'
    then inner_switch (with_long print_long args o) (with_long print_unsigned_long args o)
        (with_long print_hex_long args o) f
    else inner_switch (with_long print_long_long args o) (with_long print_unsigned_long_long args o)
        (with_long (λ v. print_hex_long_long v lowercase) args o) f

unfoldable pub is_size : ℕ → Bool
is_size f = f == b'h' || f == b'l' || f == b'q'

-- Where `fmt` stands: in the text, behind a `%`, or behind a `%` and the letter of a size.
pub data Place : Type 0 where
  in_text after_percent : Place
  after_size : ℕ → Place

unfoldable pub go_on : (List Arg → Output → Option (Run Output)) → Printed → Option (Run Output)
go_on rest none = none
go_on rest (some halted) = some halted
go_on rest (some (ok (args, o))) = rest args o

-- The loop, on the characters in front of the 0: the format may end in the text only.
unfoldable pub printk_loop : List ℕ → Place → List Arg → Output → Option (Run Output)
unfolding go_on directive sized_directive is_size
printk_loop [] in_text args o = some (ok o)
printk_loop [] after_percent args o = some halted
printk_loop [] (after_size size) args o = some halted
printk_loop (f ∷ fmt) in_text args o =
    let text = printk_loop fmt in_text args (call_char f o) in
    let directive_next = printk_loop fmt after_percent args o in
    if f == b'%' then directive_next else text
printk_loop (f ∷ fmt) after_percent args o =
    let sized = printk_loop fmt (after_size f) args o in
    let rest = go_on (printk_loop fmt in_text) (directive f args o) in
    if is_size f then sized else rest
printk_loop (f ∷ fmt) (after_size size) args o =
    go_on (printk_loop fmt in_text) (sized_directive size f args o)

-- `printk` with a format that is not null.
unfoldable pub printk : List ℕ → List Arg → Output → Option (Run Output)
printk fmt = printk_loop fmt in_text
