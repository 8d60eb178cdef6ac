-- ===== src/Printk/Format/Whole.antt =====
-- `printk` on a whole format: piece after piece.
use skip_os.Common.{
  ℕ, ◌%◌, ◌^◌, ◌≡◌, refl, ap, ◌∙◌, some, List, [], ◌∷◌, ◌++◌, append_assoc, ok, halted, arith, All,
  ne→==_false, ◌⊎◌, inl, inr,
}
use skip_os.Printk.{Output, uppercase, call_char, call_str, print_ptr}
use skip_os.Printk.Format.{
  Arg, printed, with_int, with_long, with_ptr, with_str, inner_switch, in_text, printk_loop, printk,
}
use skip_os.Printk.Format.Pieces.{
  Piece, lit, percent, char, address, string, number, plain, short, long_one, long_long, signed,
  unsigned, hex, format_of, args_of, form_letter, Shows, ShowsAll, formats, arguments, IsText,
  hexadecimal, printer, printer_shows, Size, Form, PrinterShows,
}

-- The loop over one piece comes to the text behind it, with the piece shown.
abbrev Passes : Piece → List ℕ → List Arg → Output → Type 0
Passes p fmt args o =
    (o' : Output) × Shows p o o'
    × (printk_loop (format_of p ++ fmt) in_text (args_of p ++ args) o
        ≡ printk_loop fmt in_text args o')

number-Passes :
    (size : Size) (f : Form) (v : ℕ) (fmt : List ℕ) (args : List Arg) (o : Output)
    → PrinterShows size f v o
    → Passes (number size f v) fmt args o
unfolding printk_loop format_of args_of Shows form_letter printer inner_switch with_int with_long
    printed
number-Passes plain signed v fmt args o (o', run, shows) = (o', shows, rw run refl)
number-Passes plain unsigned v fmt args o (o', run, shows) = (o', shows, rw run refl)
number-Passes plain hex v fmt args o (o', run, shows) = (o', shows, rw run refl)
number-Passes short signed v fmt args o (o', run, shows) = (o', shows, rw run refl)
number-Passes short unsigned v fmt args o (o', run, shows) = (o', shows, rw run refl)
number-Passes short hex v fmt args o (o', run, shows) = (o', shows, rw run refl)
number-Passes long_one signed v fmt args o (o', run, shows) = (o', shows, rw run refl)
number-Passes long_one unsigned v fmt args o (o', run, shows) = (o', shows, rw run refl)
number-Passes long_one hex v fmt args o (o', run, shows) = (o', shows, rw run refl)
number-Passes long_long signed v fmt args o (o', run, shows) = (o', shows, rw run refl)
number-Passes long_long unsigned v fmt args o (o', run, shows) = (o', shows, rw run refl)
number-Passes long_long hex v fmt args o (o', run, shows) = (o', shows, rw run refl)

piece-Passes :
    (p : Piece) (fmt : List ℕ) (args : List Arg) (o : Output) → IsText p → Passes p fmt args o
unfolding printk_loop format_of args_of Shows IsText with_int with_ptr with_str printed print_ptr
piece-Passes (lit c) fmt args o t = (call_char c o, refl, rw (ne→==_false c b'%' t) refl)
piece-Passes percent fmt args o t = (call_char b'%' o, refl, refl)
piece-Passes (char c) fmt args o t =
    let cut : c % 2 ^ 32 % 256 ≡ c % 256 = omega arith in (call_char (c % 256) o, refl, rw cut refl)
piece-Passes (address p) fmt args o t =
    let (o', run, shows) =
      hexadecimal (p % 2 ^ 64) uppercase (call_str (b'0' ∷ b'x' ∷ []) o) (omega arith) in
    (o', shows, rw run refl)
piece-Passes (string s) fmt args o t = (call_str s o, refl, refl)
piece-Passes (number size f v) fmt args o t =
    number-Passes size f v fmt args o (printer_shows size f v o)

-- For a format put together from characters, `%%`, `%c`, `%s`, `%p` and numbers of every size and
-- form, with the arguments it calls for, `printk` ends without a failed assertion and shows the
-- pieces one after another: characters and strings as they are, numbers by digits that read back as
-- the number cut to its size, after a minus sign where it is negative.
pub printk-ShowsAll :
    (ps : List Piece) (o : Output)
    → All IsText ps
    → (o' : Output) × (printk (formats ps) (arguments ps) o ≡ some (ok o')) × ShowsAll ps o o'
unfolding printk printk_loop formats arguments ShowsAll
printk-ShowsAll [] o t = (o, refl, refl)
printk-ShowsAll (p ∷ ps) o t =
    let (o1, shows, step) = piece-Passes p (formats ps) (arguments ps) o t.0 in
    let (o', rest, all) = printk-ShowsAll ps o1 t.1 in (o', step ∙ rest, (o1, shows, all))

-- A format that ends behind a `%`, or behind a `%` and the letter of a size, stops the machine once
-- the pieces before it are shown.
pub printk_cut_off :
    (ps : List Piece) (fmt : List ℕ) (o : Output)
    → All IsText ps
    → (fmt ≡ b'%' ∷ [])
      ⊎ (fmt ≡ b'%' ∷ b'h' ∷ [])
      ⊎ (fmt ≡ b'%' ∷ b'l' ∷ [])
      ⊎ (fmt ≡ b'%' ∷ b'q' ∷ [])
    → printk (formats ps ++ fmt) (arguments ps) o ≡ some halted
unfolding printk printk_loop formats arguments
printk_cut_off [] fmt o t (inl e) = rw e refl
printk_cut_off [] fmt o t (inr (inl e)) = rw e refl
printk_cut_off [] fmt o t (inr (inr (inl e))) = rw e refl
printk_cut_off [] fmt o t (inr (inr (inr e))) = rw e refl
printk_cut_off (p ∷ ps) fmt o t cut =
    let (o1, shows, step) = piece-Passes p (formats ps ++ fmt) (arguments ps) o t.0 in
    ap (λ k. printk_loop k in_text (args_of p ++ arguments ps) o)
      (append_assoc (format_of p) (formats ps) fmt)
    ∙ step
    ∙ printk_cut_off ps fmt o1 t.1 cut
