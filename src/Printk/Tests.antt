-- ===== src/Printk/Tests.antt =====
-- The digits of numbers, on concrete inputs.
use skip_os.Common.{
  false, replicate, length-replicate, ◌+◌, ◌*◌, ℕ, none, halted, ok, List, All, ◌-◌, ◌^◌, [], ◌∷◌,
  ◌≡◌, refl, arith, some,
}
use skip_os.Printk.{
  Output, char_call, str_call, lowercase, print_varbase, print_long_long, print_int, call_char,
  display_all, int_to_char, digits_loop, print_unsigned_long_long, print_ptr, print_hex_long_long,
  call_str, widen,
}
use skip_os.Printk.Digits.{Prints, print_varbase-parse}
use skip_os.Printk.Format.{int, str, printk, printk_loop, with_int, with_str, printed}
use skip_os.Printk.Format.Pieces.{
  Piece, lit, number, string, plain, short, signed, hex, IsText, formats, arguments, ShowsAll,
}
use skip_os.Ports.{latches}
use skip_os.Vga.{vga_width, vga_cell_count, vga_color_mask}
use skip_os.Vga.Place.{IsScreen}
use skip_os.Serial.Queue.{IsValid}
use skip_os.Printk.Console.{Console, IsShort, Performed, printk-Performed}

abbrev before : Output
before = char_call b'#' ∷ []

print_varbase-parse_example :
    Prints (print_varbase 48879 16 lowercase before) lowercase 16 48879 before
print_varbase-parse_example =
    print_varbase-parse 48879 16 lowercase before (omega arith) (omega arith) (omega arith)

minus_seven :
    print_int 4294967289 before ≡ some (char_call b'#' ∷ char_call b'-' ∷ char_call b'7' ∷ [])
unfolding print_int print_long_long print_unsigned_long_long print_varbase call_char display_all
    int_to_char digits_loop widen
minus_seven = refl

beef_ptr :
    print_ptr 48879 before
    ≡ some (
        char_call b'#'
        ∷ str_call (b'0' ∷ b'x' ∷ [])
        ∷ char_call b'B'
        ∷ char_call b'E'
        ∷ char_call b'E'
        ∷ char_call b'F'
        ∷ [])
unfolding print_ptr print_hex_long_long print_varbase call_char display_all int_to_char digits_loop
    call_str
beef_ptr = refl

-- `n=%d %hx %s`
abbrev sample : List Piece
sample =
    lit b'n'
    ∷ lit b'='
    ∷ number plain signed (2 ^ 32 - 5)
    ∷ lit b' '
    ∷ number short hex 48879
    ∷ lit b' '
    ∷ string (b'o' ∷ b'k' ∷ [])
    ∷ []

sample-IsText : All IsText sample
unfolding IsText
sample-IsText = (
  λ e. omega arith,
  (λ e. omega arith, (tt, (λ e. omega arith, (tt, (λ e. omega arith, (tt, tt)))))),
)

sample-IsShort : All IsShort sample
unfolding IsShort
sample-IsShort = (
  tt,
  (tt, (tt, (tt, (tt, (tt, (((λ e. omega arith, (λ e. omega arith, tt)), omega arith), tt)))))),
)

abbrev console : Console latches
console = record {
  vga = record {
    vga_buff = replicate vga_cell_count vga_color_mask;
    x_pos = 40;
    y_pos = 3;
    cursor = 40 + 3 * vga_width;
  };
  serial = record {
    ser = record { buff = replicate 1024 0; c = 0; p = 0; busy = false };
    device = λ p. 0;
    rflags = 0x202;
  };
}

console-IsScreen : IsScreen console.vga
console-IsScreen = record {
  size = length-replicate vga_cell_count vga_color_mask;
  column = omega arith;
  row = omega arith;
  at = refl;
}

console-IsValid : IsValid console.serial.ser
console-IsValid = record {
  storage = length-replicate {A = ℕ} 1024 0;
  c_in = omega arith;
  p_in = omega arith;
}

printk-Performed_example :
    (calls : Output) × (printk (formats sample) (arguments sample) [] ≡ some (ok calls))
    × ShowsAll sample [] calls
    × Performed latches (2 ^ 16) calls console
printk-Performed_example =
    printk-Performed latches sample (2 ^ 16) console sample-IsText sample-IsShort (omega arith)
      console-IsScreen console-IsValid

-- `%s:%d` with "ok" and -5
small_run :
    printk
      (b'%' ∷ b's' ∷ b':' ∷ b'%' ∷ b'd' ∷ [])
      (str (b'o' ∷ b'k' ∷ []) ∷ int 4294967291 ∷ [])
      before
    ≡ some (
        ok (
          char_call b'#'
          ∷ str_call (b'o' ∷ b'k' ∷ [])
          ∷ char_call b':'
          ∷ char_call b'-'
          ∷ char_call b'5'
          ∷ []))
unfolding printk printk_loop with_int with_str printed print_int print_long_long
    print_unsigned_long_long print_varbase call_char display_all call_str int_to_char digits_loop
    widen
small_run = refl

-- An unknown letter stops the machine, and a missing argument is undefined.
unknown_letter : printk (b'%' ∷ b'z' ∷ []) [] before ≡ some halted
unfolding printk printk_loop
unknown_letter = refl

missing_argument : printk (b'%' ∷ b'd' ∷ []) [] before ≡ none
unfolding printk printk_loop with_int
missing_argument = refl
