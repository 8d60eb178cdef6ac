-- ===== src/Printk/Format/Pieces.antt =====
-- A format as a list of pieces, each with its argument, and what `printk` shows for each.
use skip_os.Common.{
  ℕ, ◌+◌, ◌-◌, ◌%◌, ◌^◌, ◌≤◌, ◌<◌, ◌≡◌, ◌≢◌, refl, sym, ◌∙◌, subst, ltb, if◌then◌else◌, Option,
  some, List, [], ◌∷◌, ◌++◌, arith, ◌⊎◌, inl, inr, lt→ltb, le→ltb_false,
}
use native.Mathlib.Decide.{dec_lt}
use skip_os.Printk.{
  Output, Case, lowercase, uppercase, call_char, call_str, print_short, print_unsigned_short,
  print_hex_short, print_int, print_unsigned_int, print_hex_int, print_long, print_unsigned_long,
  print_hex_long, print_long_long, print_unsigned_long_long, print_hex_long_long, widen,
  print_varbase,
}
use skip_os.Printk.Digits.{
  Prints, PrintsSigned, print_varbase-parse, print_long_long-parse, print_int-parse,
  long_long_positive, long_long_negative,
}
use skip_os.Printk.Format.{Arg, int, long, ptr, str}

pub data Size : Type 0 where
  plain short long_one long_long : Size

pub data Form : Type 0 where
  signed unsigned hex : Form

pub data Piece : Type 0 where
  lit : ℕ → Piece
  percent : Piece
  char address : ℕ → Piece
  string : List ℕ → Piece
  number : Size → Form → ℕ → Piece

unfoldable pub width : Size → ℕ
width plain = 32
width short = 16
width long_one = 64
width long_long = 64

unfoldable pub form_letter : Form → ℕ
form_letter signed = b'd'
form_letter unsigned = b'u'
form_letter hex = b'x'

unfoldable pub format_of : Piece → List ℕ
unfolding form_letter
format_of (lit c) = c ∷ []
format_of percent = b'%' ∷ b'%' ∷ []
format_of (char c) = b'%' ∷ b'c' ∷ []
format_of (address p) = b'%' ∷ b'p' ∷ []
format_of (string s) = b'%' ∷ b's' ∷ []
format_of (number plain f v) = b'%' ∷ form_letter f ∷ []
format_of (number short f v) = b'%' ∷ b'h' ∷ form_letter f ∷ []
format_of (number long_one f v) = b'%' ∷ b'l' ∷ form_letter f ∷ []
format_of (number long_long f v) = b'%' ∷ b'q' ∷ form_letter f ∷ []

unfoldable pub args_of : Piece → List Arg
args_of (lit c) = []
args_of percent = []
args_of (char c) = int c ∷ []
args_of (address p) = ptr p ∷ []
args_of (string s) = str s ∷ []
args_of (number plain f v) = int v ∷ []
args_of (number short f v) = int v ∷ []
args_of (number long_one f v) = long v ∷ []
args_of (number long_long f v) = long v ∷ []

-- A number of `w` bits shown in a form after `o`, with `o'` as the result.
unfoldable pub ShowsNumber : Form → ℕ → ℕ → Output → Output → Type 0
ShowsNumber signed w v o o' = PrintsSigned (some o') w v o
ShowsNumber unsigned w v o o' = Prints (some o') lowercase 10 v o
ShowsNumber hex w v o o' = Prints (some o') lowercase 16 v o

-- What each piece is to show after `o`: itself, or its number in digits.
unfoldable pub Shows : Piece → Output → Output → Type 0
Shows (lit c) o o' = o' ≡ call_char c o
Shows percent o o' = o' ≡ call_char b'%' o
Shows (char c) o o' = o' ≡ call_char (c % 256) o
Shows (address p) o o' = Prints (some o') uppercase 16 (p % 2 ^ 64) (call_str (b'0' ∷ b'x' ∷ []) o)
Shows (string s) o o' = o' ≡ call_str s o
Shows (number size f v) o o' = ShowsNumber f (width size) (v % 2 ^ width size) o o'

unfoldable pub ShowsAll : List Piece → Output → Output → Type 0
ShowsAll [] o o' = o' ≡ o
ShowsAll (p ∷ ps) o o' = (o1 : Output) × Shows p o o1 × ShowsAll ps o1 o'

unfoldable pub formats : List Piece → List ℕ
formats [] = []
formats (p ∷ ps) = format_of p ++ formats ps

unfoldable pub arguments : List Piece → List Arg
arguments [] = []
arguments (p ∷ ps) = args_of p ++ arguments ps

-- A character of the text is no `%`.
unfoldable pub IsText : Piece → Type 0
IsText (lit c) = c ≢ b'%'
IsText percent = Unit
IsText (char c) = Unit
IsText (address p) = Unit
IsText (string s) = Unit
IsText (number size f v) = Unit

-- Digits are always printed: what a number printer returns, with the result named.
named_result :
    (r : Option Output) (cs : Case) (base v : ℕ) (o : Output)
    → Prints r cs base v o
    → (o' : Output) × (r ≡ some o') × Prints (some o') cs base v o
unfolding Prints
named_result r cs base v o (ds, run, value, some_digit, few, all) =
    (_, run, (ds, refl, value, some_digit, few, all))

named_signed :
    (r : Option Output) (w v : ℕ) (o : Output)
    → PrintsSigned r w v o
    → (o' : Output) × (r ≡ some o') × PrintsSigned (some o') w v o
unfolding PrintsSigned
named_signed r w v o (inl (small, shows)) =
    let (o', run, again) = named_result r lowercase 10 v o shows in (o', run, inl (small, again))
named_signed r w v o (inr (large, shows)) =
    let (o', run, again) = named_result r lowercase 10 (2 ^ w - v) (call_char b'-' o) shows in
    (o', run, inr (large, again))

-- A number of which the upper half of the range is negative, widened to 64 bits.
extended :
    (b x v : ℕ) (o : Output)
    → b ≤ 2 ^ 63
    → v < b + b
    → x ≡ (if ltb v b then v else v + 2 ^ 64 - (b + b))
    → ((v < b) × Prints (print_long_long x o) lowercase 10 v o)
      ⊎ ((b ≤ v) × Prints (print_long_long x o) lowercase 10 (b + b - v) (call_char b'-' o))
extended b x v o hb hv e = elim (dec_lt v b) [
  | yes small ↦
      let same : x ≡ v = e ∙ rw (lt→ltb v b small) refl in
      inl (
        small,
        subst (λ k. Prints (print_long_long k o) lowercase 10 v o) (sym same)
            (long_long_positive v o (omega arith)),
      )
  | no large ↦
      let big : b ≤ v = omega arith in
      let wide : x ≡ v + 2 ^ 64 - (b + b) = e ∙ rw (le→ltb_false v b big) refl in
      let back : 2 ^ 64 - x ≡ b + b - v = omega arith in
      inr (
        big,
        subst (λ k. Prints (print_long_long x o) lowercase 10 k (call_char b'-' o)) back
            (long_long_negative x o (omega arith) (omega arith)),
      )
]

-- The function that prints a number, on the pattern that `va_arg` reads.
unfoldable pub printer : Size → Form → ℕ → Output → Option Output
printer plain signed v = print_int (v % 2 ^ 32)
printer plain unsigned v = print_unsigned_int (v % 2 ^ 32)
printer plain hex v = print_hex_int (v % 2 ^ 32)
printer short signed v = print_short (v % 2 ^ 32)
printer short unsigned v = print_unsigned_short (v % 2 ^ 32)
printer short hex v = print_hex_short (v % 2 ^ 32)
printer long_one signed v = print_long (v % 2 ^ 64)
printer long_one unsigned v = print_unsigned_long (v % 2 ^ 64)
printer long_one hex v = print_hex_long (v % 2 ^ 64)
printer long_long signed v = print_long_long (v % 2 ^ 64)
printer long_long unsigned v = print_unsigned_long_long (v % 2 ^ 64)
printer long_long hex v = print_hex_long_long (v % 2 ^ 64) lowercase

decimal :
    (v : ℕ) (o : Output)
    → v < 2 ^ 64
    → (o' : Output) × (print_unsigned_long_long v o ≡ some o') × Prints (some o') lowercase 10 v o
unfolding print_unsigned_long_long
decimal v o h =
    named_result (print_varbase v 10 lowercase o) lowercase 10 v o
      (print_varbase-parse v 10 lowercase o (omega arith) (omega arith) h)

pub hexadecimal :
    (v : ℕ) (cs : Case) (o : Output)
    → v < 2 ^ 64
    → (o' : Output) × (print_hex_long_long v cs o ≡ some o') × Prints (some o') cs 16 v o
unfolding print_hex_long_long
hexadecimal v cs o h =
    named_result (print_varbase v 16 cs o) cs 16 v o
      (print_varbase-parse v 16 cs o (omega arith) (omega arith) h)

cut32 : (v : ℕ) → v % 2 ^ 32 % 2 ^ 32 ≡ v % 2 ^ 32
cut32 v = omega arith

cut16 : (v : ℕ) → v % 2 ^ 32 % 2 ^ 16 ≡ v % 2 ^ 16
cut16 v = omega arith

-- What `printer` shows of a value.
abbrev pub PrinterShows : Size → Form → ℕ → Output → Type 0
PrinterShows size f v o =
    (o' : Output) × (printer size f v o ≡ some o')
    × ShowsNumber f (width size) (v % 2 ^ width size) o o'

short_signed : (v : ℕ) (o : Output) → PrinterShows short signed v o
unfolding printer ShowsNumber width print_short widen PrintsSigned
short_signed v o =
    let wide =
      extended (2 ^ 15) (widen 16 (v % 2 ^ 32)) (v % 2 ^ 16) o (omega arith) (omega arith)
        (rw (cut16 v) refl) in
    named_signed (print_long_long (widen 16 (v % 2 ^ 32)) o) 16 (v % 2 ^ 16) o wide

long_signed :
    (v : ℕ) (o : Output)
    → (o' : Output) × (print_long_long (v % 2 ^ 64) o ≡ some o')
      × PrintsSigned (some o') 64 (v % 2 ^ 64) o
long_signed v o =
    named_signed (print_long_long (v % 2 ^ 64) o) 64 (v % 2 ^ 64) o
      (print_long_long-parse (v % 2 ^ 64) o (omega arith))

pub printer_shows : (size : Size) (f : Form) (v : ℕ) (o : Output) → PrinterShows size f v o
unfolding printer ShowsNumber width print_unsigned_int print_hex_int print_unsigned_short
    print_hex_short print_long print_unsigned_long print_hex_long
printer_shows plain signed v o =
    named_signed (print_int (v % 2 ^ 32) o) 32 (v % 2 ^ 32) o
      (print_int-parse (v % 2 ^ 32) o (omega arith))
printer_shows plain unsigned v o = rw (cut32 v) (decimal (v % 2 ^ 32) o (omega arith))
printer_shows plain hex v o = rw (cut32 v) (hexadecimal (v % 2 ^ 32) lowercase o (omega arith))
printer_shows short signed v o = short_signed v o
printer_shows short unsigned v o = rw (cut16 v) (decimal (v % 2 ^ 16) o (omega arith))
printer_shows short hex v o = rw (cut16 v) (hexadecimal (v % 2 ^ 16) lowercase o (omega arith))
printer_shows long_one signed v o = long_signed v o
printer_shows long_one unsigned v o = decimal (v % 2 ^ 64) o (omega arith)
printer_shows long_one hex v o = hexadecimal (v % 2 ^ 64) lowercase o (omega arith)
printer_shows long_long signed v o = long_signed v o
printer_shows long_long unsigned v o = decimal (v % 2 ^ 64) o (omega arith)
printer_shows long_long hex v o = hexadecimal (v % 2 ^ 64) lowercase o (omega arith)
