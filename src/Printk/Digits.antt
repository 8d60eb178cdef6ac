-- ===== src/Printk/Digits.antt =====
-- The digits that are printed are those of the number.
use skip_os.Common.{
  All, map, sym, lt→ltb, ℕ, zero, suc, ◌+◌, ◌-◌, ◌*◌, ◌/◌, ◌%◌, ◌^◌, ◌≤◌, ◌<◌, ◌≡◌, refl, ap, ◌∙◌,
  subst, ltb, if◌then◌else◌, Option, some, List, [], ◌∷◌, ◌++◌, append_assoc, append-nil, length,
  arith, inl, inr, ne→==_false, le→leb, lt→leb_false, ◌⊎◌,
}
use native.Mathlib.Decide.{dec_lt}
use skip_os.Printk.{
  out_buff_size, Case, uppercase, lowercase, Output, call_char, char_call, int_to_char, digits_loop,
  display_all, print_varbase, print_unsigned_long_long, print_long_long, print_int, widen,
}

-- The value of a digit, in either case of letters.
unfoldable pub digit_value : ℕ → ℕ
digit_value c = if ltb c b'A' then c - b'0' else if ltb c b'a' then c - b'A' + 10 else c - b'a' + 10

unfoldable first_letter : Case → ℕ
first_letter uppercase = b'A'
first_letter lowercase = b'a'

-- A digit of a base: a decimal one or a letter from the first to the sixth, in the case asked for.
unfoldable pub IsDigit : Case → ℕ → ℕ → Type 0
unfolding first_letter
IsDigit cs base c =
    (((b'0' ≤ c) × (c ≤ b'9')) ⊎ ((first_letter cs ≤ c) × (c ≤ first_letter cs + 5)))
    × (digit_value c < base)

-- The number that digits stand for, the most significant first.
unfoldable pub parse : ℕ → ℕ → List ℕ → ℕ
parse base acc [] = acc
parse base acc (c ∷ cs) = parse base (acc * base + digit_value c) cs

digit_value-int_to_char : (d : ℕ) (cs : Case) → d < 16 → digit_value (int_to_char d cs) ≡ d
unfolding digit_value int_to_char
digit_value-int_to_char d uppercase h = ground arith
digit_value-int_to_char d lowercase h = ground arith

int_to_char-kind :
    (d : ℕ) (cs : Case)
    → d < 16
    → ((b'0' ≤ int_to_char d cs) × (int_to_char d cs ≤ b'9'))
      ⊎ ((first_letter cs ≤ int_to_char d cs) × (int_to_char d cs ≤ first_letter cs + 5))
unfolding int_to_char first_letter
int_to_char-kind d cs h = elim (dec_lt d 10) [
  | yes small ↦ inl (rw (lt→ltb d 10 small) (omega arith, omega arith))
  | no large ↦ inr (letter cs (omega arith))
]
  where
    letter :
        (c : Case)
        → 10 ≤ d
        → (first_letter c ≤ int_to_char d c) × (int_to_char d c ≤ first_letter c + 5)
    letter uppercase no_digit = ground arith
    letter lowercase no_digit = ground arith

int_to_char-IsDigit : (v b : ℕ) (cs : Case) → 2 ≤ b → b ≤ 16 → IsDigit cs b (int_to_char (v % b) cs)
unfolding IsDigit
int_to_char-IsDigit v b cs lo hi =
    let small : v % b < 16 = omega arith in
    (
      int_to_char-kind (v % b) cs small,
      subst (λ k. k < b) (sym (digit_value-int_to_char (v % b) cs small)) (omega arith),
    )

div-lt_pow : (n v b : ℕ) → 2 ≤ b → v < 2 ^ suc n → v / b < 2 ^ n
div-lt_pow n v b lo h = let twice : v < 2 ^ n + 2 ^ n = omega arith in grind arith

div-mod_digit :
    (v b : ℕ) (cs : Case) → 2 ≤ b → b ≤ 16 → v / b * b + digit_value (int_to_char (v % b) cs) ≡ v
div-mod_digit v b cs lo hi =
    let small : v % b < 16 = omega arith in
    let digit : digit_value (int_to_char (v % b) cs) ≡ v % b =
      digit_value-int_to_char (v % b) cs small in
    omega arith

-- What the loop is to return for `val` with `tmp` written already.
LoopGives : ℕ → ℕ → ℕ → Case → List ℕ → Type 0
LoopGives n val base cs tmp =
    (ds : List ℕ) × (digits_loop (suc n) val base cs tmp ≡ some ds)
    × (parse base 0 ds ≡ parse base val tmp)
    × (length ds ≤ n + length tmp)
    × All (IsDigit cs base) ds

digits_end :
    (n base : ℕ) (cs : Case) (tmp : List ℕ) → All (IsDigit cs base) tmp → LoopGives n 0 base cs tmp
unfolding LoopGives digits_loop
digits_end n base cs tmp all = (tmp, refl, refl, omega arith, all)

digits_more :
    (n v base : ℕ) (cs : Case) (tmp : List ℕ)
    → 2 ≤ base
    → base ≤ 16
    → LoopGives n (suc v / base) base cs (int_to_char (suc v % base) cs ∷ tmp)
    → LoopGives (suc n) (suc v) base cs tmp
unfolding LoopGives digits_loop parse
digits_more n v base cs tmp lo hi (ds, run, value, len, all) = (
  ds,
  rw (ne→==_false (suc v) 0 (λ e. omega arith)) run,
  value ∙ ap (λ k. parse base k tmp) (div-mod_digit (suc v) base cs lo hi),
  omega arith,
  all,
)

-- The loop ends, and puts the digits of `val` in front of those it was given.
digits_loop-parse :
    (n val base : ℕ) (cs : Case) (tmp : List ℕ)
    → 2 ≤ base
    → base ≤ 16
    → val < 2 ^ n
    → All (IsDigit cs base) tmp
    → LoopGives n val base cs tmp
digits_loop-parse n zero base cs tmp lo hi h all = digits_end n base cs tmp all
digits_loop-parse zero (suc v) base cs tmp lo hi h all = absurd (omega arith)
digits_loop-parse (suc n) (suc v) base cs tmp lo hi h all = digits_more n v base cs tmp lo hi (
    digits_loop-parse n (suc v / base) base cs (int_to_char (suc v % base) cs ∷ tmp) lo hi
      (div-lt_pow n (suc v) base lo h) (int_to_char-IsDigit (suc v) base cs lo hi, all))

-- The characters of `ds` are given to `display_char`, one after another.
unfoldable pub shown : List ℕ → Output → Output
shown ds o = o ++ map char_call ds

display_all-shown : (ds : List ℕ) (o : Output) → display_all ds o ≡ shown ds o
unfolding display_all call_char shown
display_all-shown [] o = sym (append-nil o)
display_all-shown (c ∷ ds) o =
    display_all-shown ds (call_char c o) ∙ append_assoc o (char_call c ∷ []) (map char_call ds)

parsed_some : (base v : ℕ) (ds : List ℕ) → parse base 0 ds ≡ v → 0 < v → 0 < length ds
unfolding parse
parsed_some base v [] e h = absurd (omega arith)
parsed_some base v (d ∷ ds) e h = omega arith

-- What printing `val` after `o` is to do: some digits of a base, in a case, at most 64 and at least one, are given to
-- `display_char`, and they stand for `val`.
unfoldable pub Prints : Option Output → Case → ℕ → ℕ → Output → Type 0
Prints r cs base val o =
    (ds : List ℕ) × (r ≡ some (shown ds o))
    × (parse base 0 ds ≡ val)
    × (0 < length ds)
    × (length ds ≤ out_buff_size)
    × All (IsDigit cs base) ds

-- For every 64-bit number and every base from 2 to 16, the digits fit the buffer of 64, are all
-- given to `display_char` in order, are decimal digits or letters of the case asked for,
-- below the base, and read back as the number.
pub print_varbase-parse :
    (val base : ℕ) (cs : Case) (o : Output)
    → 2 ≤ base
    → base ≤ 16
    → val < 2 ^ 64
    → Prints (print_varbase val base cs o) cs base val o
unfolding Prints print_varbase parse LoopGives shown call_char digit_value IsDigit
print_varbase-parse zero base cs o lo hi h = (
  b'0' ∷ [],
  refl,
  zero_value,
  omega arith,
  omega arith,
  ((inl (omega arith, omega arith), zero_digit), tt),
)
  where
    zero_value : parse base 0 (b'0' ∷ []) ≡ 0
    zero_value = omega arith

    zero_digit : digit_value b'0' < base
    zero_digit = omega arith
print_varbase-parse (suc v) base cs o lo hi h =
    let (ds, run, value, len, all) = digits_loop-parse 64 (suc v) base cs [] lo hi h tt in
    let some_digit : 0 < length ds = parsed_some base (suc v) ds value (omega arith) in
    (
      ds,
      rw (ne→==_false (suc v) 0 (λ e. omega arith), run) (ap some (display_all-shown ds o)),
      value,
      some_digit,
      omega arith,
      all,
    )

-- How a signed number of `w` bits, given by its bit pattern, is to come out: its digits, after a
-- minus sign where the top bit is set.
unfoldable pub PrintsSigned : Option Output → ℕ → ℕ → Output → Type 0
PrintsSigned r w val o =
    ((val < 2 ^ (w - 1)) × Prints r lowercase 10 val o)
    ⊎ ((2 ^ (w - 1) ≤ val) × Prints r lowercase 10 (2 ^ w - val) (call_char b'-' o))

pub long_long_positive :
    (val : ℕ) (o : Output) → val < 2 ^ 63 → Prints (print_long_long val o) lowercase 10 val o
unfolding print_long_long print_unsigned_long_long
long_long_positive val o h =
    rw (lt→leb_false (2 ^ 63) val h)
      (print_varbase-parse val 10 lowercase o (omega arith) (omega arith) (omega arith))

pub long_long_negative :
    (val : ℕ) (o : Output)
    → 2 ^ 63 ≤ val
    → val < 2 ^ 64
    → Prints (print_long_long val o) lowercase 10 (2 ^ 64 - val) (call_char b'-' o)
unfolding print_long_long print_unsigned_long_long
long_long_negative val o big h =
    let exact : (2 ^ 64 - val) % 2 ^ 64 ≡ 2 ^ 64 - val = omega arith in
    rw (le→leb (2 ^ 63) val big, exact)
      (print_varbase-parse (2 ^ 64 - val) 10 lowercase (call_char b'-' o) (omega arith)
        (omega arith) (omega arith))

-- A 64-bit pattern comes out as the signed number it stands for, the least one, -2^63, included.
pub print_long_long-parse :
    (val : ℕ) (o : Output) → val < 2 ^ 64 → PrintsSigned (print_long_long val o) 64 val o
unfolding PrintsSigned
print_long_long-parse val o h = elim (dec_lt val (2 ^ 63)) [
  | yes small ↦ inl (small, long_long_positive val o small)
  | no large ↦ inr (omega arith, long_long_negative val o (omega arith) h)
]

widen-positive : (val : ℕ) → val < 2 ^ 31 → widen 32 val ≡ val
unfolding widen
widen-positive val h = ground arith

widen-negative : (val : ℕ) → 2 ^ 31 ≤ val → val < 2 ^ 32 → widen 32 val ≡ val + 2 ^ 64 - 2 ^ 32
unfolding widen
widen-negative val h lt = ground arith

-- A 32-bit pattern comes out as the signed number it stands for, the least one, -2^31, included:
-- widening it to 64 bits keeps its sign.
pub print_int-parse :
    (val : ℕ) (o : Output) → val < 2 ^ 32 → PrintsSigned (print_int val o) 32 val o
unfolding PrintsSigned print_int
print_int-parse val o h = elim (dec_lt val (2 ^ 31)) [
  | yes small ↦ inl (small, rw (widen-positive val small) (long_long_positive val o (omega arith)))
  | no large ↦
      let big : 2 ^ 31 ≤ val = omega arith in
      let same : 2 ^ 64 - (val + 2 ^ 64 - 2 ^ 32) ≡ 2 ^ 32 - val = omega arith in
      inr (
        big,
        rw (widen-negative val big h) (
            subst
              (λ k.
                Prints (print_long_long (val + 2 ^ 64 - 2 ^ 32) o) lowercase 10 k
                  (call_char b'-' o))
              same (long_long_negative (val + 2 ^ 64 - 2 ^ 32) o (omega arith) (omega arith))),
      )
]
