-- ===== src/Printk/Console.antt =====
-- What the calls of `printk` do: `display_char` and `display_str` of core/src/printk.c on the screen and
-- the serial port.
use skip_os.Common.{
  ℕ, ◌^◌, ◌≤◌, ◌<◌, ◌≡◌, ◌≢◌, refl, sym, ap, ◌∙◌, subst, inl, inr, Run, ok, halted, ◌>>=◌, Option,
  none, some, List, [], ◌∷◌, ◌++◌, map, length, All, arith,
}
use skip_os.Ports.{Ports}
use skip_os.Vga.{Vga}
use skip_os.Vga
use skip_os.Vga.Place.{IsScreen}
use skip_os.Vga.Screen.{display_char-Typed}
use skip_os.Vga.Edit.{display_chars, display_chars-IsScreen, display_str-chars}
use skip_os.Serial.{Machine, write}
use skip_os.Serial.Queue.{IsValid}
use skip_os.Serial.Output.{write-started}
use skip_os.Printk.{Call, char_call, str_call, Output, call_char, call_str, Case}
use skip_os.Printk.Digits.{Prints, PrintsSigned, shown}
use skip_os.Printk.Format.{printk}
use skip_os.Printk.Format.Pieces.{
  Piece, lit, percent, char, address, string, number, signed, unsigned, hex, Shows, ShowsNumber,
  ShowsAll, IsText, formats, arguments,
}
use skip_os.Printk.Format.Whole.{printk-ShowsAll}

module _ (ports : Ports) where
  -- The screen and the serial port.
  pub record Console : Type 0 where
    pub vga : Vga
    pub serial : Machine ports

  unfoldable pub display_char : ℕ → Console → Run Console
  display_char c con = do
    vga ← Vga.display_char c con.vga
    serial ← write ports (c ∷ []) con.serial
    ok (record { vga = vga; serial = serial })

  -- A string that is not null, with fuel for the screen. The serial port also gets the 0 that ends it.
  unfoldable pub display_str : ℕ → List ℕ → Console → Option (Run Console)
  display_str n s con = elim (Vga.display_str n s con.vga) [
    | none ↦ none
    | some r ↦ some (do
      vga ← r
      serial ← write ports (s ++ 0 ∷ []) con.serial
      ok (record { vga = vga; serial = serial }))
  ]

  unfoldable pub perform : ℕ → Call → Console → Option (Run Console)
  unfolding display_char display_str
  perform n (char_call c) con = some (display_char c con)
  perform n (str_call s) con = display_str n s con

  unfoldable pub perform_all : ℕ → Output → Console → Option (Run Console)
  unfolding perform
  perform_all n [] con = some (ok con)
  perform_all n (c ∷ cs) con = elim (perform n c con) [
    | none ↦ none
    | some halted ↦ some halted
    | some (ok next) ↦ perform_all n cs next
  ]

-- A string ends at its only 0, and is shorter than 2^16.
abbrev pub IsString : List ℕ → Type 0
IsString s = All (λ c. c ≢ 0) s × (length s < 2 ^ 16)

unfoldable pub IsShort : Piece → Type 0
IsShort (lit c) = Unit
IsShort percent = Unit
IsShort (char c) = Unit
IsShort (address p) = Unit
IsShort (string s) = IsString s
IsShort (number size f v) = Unit

abbrev Printable : Call → Type 0
Printable (char_call c) = Unit
Printable (str_call s) = IsString s

-- The characters that the calls give to the screen.
unfoldable pub text : Output → List ℕ
text [] = []
text (char_call c ∷ cs) = c ∷ text cs
text (str_call s ∷ cs) = s ++ text cs

append-Printable :
    (o more : Output) → All Printable o → All Printable more → All Printable (o ++ more)
append-Printable [] more all rest = rest
append-Printable (c ∷ cs) more all rest = (all.0, append-Printable cs more all.1 rest)

char_calls : (ds : List ℕ) → All Printable (map char_call ds)
char_calls [] = tt
char_calls (d ∷ ds) = (tt, char_calls ds)

Prints-Printable :
    (o' : Output) (cs : Case) (base v : ℕ) (o : Output)
    → Prints (some o') cs base v o
    → All Printable o
    → All Printable o'
unfolding Prints shown
Prints-Printable o' cs base v o (ds, run, value, some_digit, few, digits) all =
    let same : o' ≡ o ++ map char_call ds = cc in
    subst (All Printable) (sym same) (append-Printable o (map char_call ds) all (char_calls ds))

Signed-Printable :
    (o' : Output) (w v : ℕ) (o : Output)
    → PrintsSigned (some o') w v o
    → All Printable o
    → All Printable o'
unfolding PrintsSigned call_char
Signed-Printable o' w v o (inl (small, shows)) all = Prints-Printable o' _ 10 v o shows all
Signed-Printable o' w v o (inr (large, shows)) all =
    Prints-Printable o' _ 10 _ _ shows (append-Printable o (char_call b'-' ∷ []) all (tt, tt))

Shows-Printable :
    (p : Piece) (o o' : Output) → IsShort p → Shows p o o' → All Printable o → All Printable o'
unfolding Shows ShowsNumber IsShort call_char call_str
Shows-Printable (lit c) o o' short e all =
    subst (All Printable) (sym e) (append-Printable o (char_call c ∷ []) all (tt, tt))
Shows-Printable percent o o' short e all =
    subst (All Printable) (sym e) (append-Printable o (char_call b'%' ∷ []) all (tt, tt))
Shows-Printable (char c) o o' short e all =
    subst (All Printable) (sym e) (append-Printable o _ all (tt, tt))
Shows-Printable (string s) o o' short e all =
    subst (All Printable) (sym e) (append-Printable o (str_call s ∷ []) all (short, tt))
Shows-Printable (address p) o o' short shows all = Prints-Printable o' _ 16 _ _ shows (
    append-Printable o (str_call (b'0' ∷ b'x' ∷ []) ∷ []) all
      (((λ e. omega arith, (λ e. omega arith, tt)), omega arith), tt))
Shows-Printable (number size signed v) o o' short shows all = Signed-Printable o' _ _ o shows all
Shows-Printable (number size unsigned v) o o' short shows all =
    Prints-Printable o' _ 10 _ o shows all
Shows-Printable (number size hex v) o o' short shows all = Prints-Printable o' _ 16 _ o shows all

ShowsAll-Printable :
    (ps : List Piece) (o o' : Output)
    → All IsShort ps
    → ShowsAll ps o o'
    → All Printable o
    → All Printable o'
unfolding ShowsAll
ShowsAll-Printable [] o o' short e all = subst (All Printable) (sym e) all
ShowsAll-Printable (p ∷ ps) o o' short (o1, shows, rest) all =
    ShowsAll-Printable ps o1 o' short.1 rest (Shows-Printable p o o1 short.0 shows all)

display_chars-append :
    (cs ds : List ℕ) (v w : Vga)
    → display_chars cs v ≡ ok w
    → display_chars (cs ++ ds) v ≡ display_chars ds w
unfolding display_chars
display_chars-append [] ds v w e = let same : v ≡ w = cc in ap (display_chars ds) same
display_chars-append (c ∷ cs) ds v w e =
    each (Vga.display_char c v) e (λ s1 h. display_chars-append cs ds s1 w h)
  where
    each :
        (r : Run Vga)
        → (r >>= display_chars cs) ≡ ok w
        → ((s1 : Vga)
            → display_chars cs s1 ≡ ok w
            → display_chars (cs ++ ds) s1 ≡ display_chars ds w)
        → (r >>= display_chars (cs ++ ds)) ≡ display_chars ds w
    each halted h rest = cc
    each (ok s1) h rest = rest s1 h

module _ (ports : Ports) where
  -- The calls are performed, and the text is on the screen.
  pub record Performed (n : ℕ) (calls : Output) (con : Console ports) : Type 0 where
    pub con' : Console ports
    pub run : perform_all ports n calls con ≡ some (ok con')
    pub shown_text : display_chars (text calls) con.vga ≡ ok con'.vga
    pub screen : IsScreen con'.vga
    pub valid : IsValid con'.serial.ser

  calls-Performed :
      (n : ℕ) (calls : Output) (con : Console ports)
      → 2 ^ 16 ≤ n
      → All Printable calls
      → IsScreen con.vga
      → IsValid con.serial.ser
      → Performed n calls con
  unfolding perform_all text display_chars
  calls-Performed n [] con fuel all v w = record {
    con' = con;
    run = refl;
    shown_text = refl;
    screen = v;
    valid = w;
  }
  calls-Performed n (char_call c ∷ cs) con fuel all v w =
      let (vga, shows, done) = display_char-Typed c con.vga v in
      let (serial, sent, w1, started_of, flags) = write-started ports (c ∷ []) con.serial w in
      let rest =
        calls-Performed n cs (record { vga = vga; serial = serial }) fuel all.1 done.screen w1 in
      record {
        con' = rest.con';
        run = rw (perform_all, shows, sent) rest.run;
        shown_text = rw shows rest.shown_text;
        screen = rest.screen;
        valid = rest.valid;
      }
  calls-Performed n (str_call s ∷ cs) con fuel all v w =
      let (vga, shows, v1) = display_chars-IsScreen s con.vga v in
      let (serial, sent, w1, started_of, flags) = write-started ports (s ++ 0 ∷ []) con.serial w in
      let rest = calls-Performed n cs (record { vga = vga; serial = serial }) fuel all.1 v1 w1 in
      let on_screen = display_str-chars s n con.vga all.0.0 all.0.1 (omega (arith, all.0.1)) in
      record {
        con' = rest.con';
        run = rw (perform_all, on_screen, shows, sent) rest.run;
        shown_text = display_chars-append s (text cs) con.vga vga shows ∙ rest.shown_text;
        screen = rest.screen;
        valid = rest.valid;
      }

  pub printk-Performed :
      (ps : List Piece) (n : ℕ) (con : Console ports)
      → All IsText ps
      → All IsShort ps
      → 2 ^ 16 ≤ n
      → IsScreen con.vga
      → IsValid con.serial.ser
      → (calls : Output) × (printk (formats ps) (arguments ps) [] ≡ some (ok calls))
        × ShowsAll ps [] calls
        × Performed n calls con
  printk-Performed ps n con texts short fuel v w =
      let (calls, run, shows) = printk-ShowsAll ps [] texts in
      (
        calls,
        run,
        shows,
        calls-Performed n calls con fuel (ShowsAll-Printable ps [] calls short shows tt) v w,
      )
