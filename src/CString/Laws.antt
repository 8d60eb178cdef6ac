-- ===== src/CString/Laws.antt =====
-- What the string functions compute, for strings of every length.
use skip_os.Common.{
  ℕ, zero, suc, ◌+◌, ◌-◌, ◌%◌, ◌^◌, ◌≤◌, ◌<◌, ◌≡◌, ◌≢◌, refl, ap, ◌∙◌, subst, true, false, ok, ltb,
  leb, ◌==◌, if◌then◌else◌, Option, some, none, List, [], ◌∷◌, length, arith, le→leb, ne→==_false,
  Bool-cases, inl, inr, ◌⊎◌, ◌↔◌,
}
use skip_os.Common.Words.{add64, sub64}
use skip_os.CString.{
  Bytes, poke, memset_loop, memset, memcpy_loop, memcpy, strlen_loop, strlen, strcpy, strval_loop,
  strval, strcmp, char_to_int, null, strchr_loop, strchr,
}

-- The bytes `cs` stand from `p` on.
abbrev pub At : Bytes → ℕ → List ℕ → Type 0
At b p [] = Unit {0}
At b p (c ∷ cs) = (b p ≡ c) × At b (p + 1) cs

-- A string: bytes other than 0, and the 0 that ends it.
abbrev pub Str : Bytes → ℕ → List ℕ → Type 0
Str b p [] = b p ≡ 0
Str b p (c ∷ cs) = (b p ≡ c) × (c ≢ 0) × (c < 256) × Str b (p + 1) cs

memset_loop-eq :
    (n : ℕ) (b : Bytes) (s c i p : ℕ)
    → memset_loop n b s c i p
      ≡ (if leb (s + i) p then (if ltb p (s + i + n) then c % 256 else b p) else b p)
unfolding memset_loop poke
memset_loop-eq zero b s c i p = ground arith
memset_loop-eq (suc n) b s c i p =
    ground (arith, memset_loop-eq n (poke b (s + i) (c % 256)) s c (i + 1) p)

-- `memset` with a byte value sets exactly the `n` bytes from `s` on, and leaves the others.
pub memset-eq :
    (b : Bytes) (s c n : ℕ)
    → c < 256
    → (b' : Bytes) × (memset b s c n ≡ ok b')
      × ((p : ℕ) → b' p ≡ (if leb s p then (if ltb p (s + n) then c else b p) else b p))
unfolding memset
memset-eq b s c n h = (
  memset_loop n b s c 0,
  rw (le→leb c 255 (omega arith)),
  λ p. ground (arith, memset_loop-eq n b s c 0 p),
)

-- Areas apart, or the destination in front: then no byte is read after it was written.
memcpy_loop-eq :
    (n : ℕ) (b : Bytes) (dest src i p : ℕ)
    → (dest ≤ src) ⊎ (src + i + n ≤ dest)
    → memcpy_loop n b dest src i p ≡ (
        if leb (dest + i) p
        then (if ltb p (dest + i + n) then b (p + src - dest) else b p)
        else b p)
unfolding memcpy_loop poke
memcpy_loop-eq zero b dest src i p h = ground arith
memcpy_loop-eq (suc n) b dest src i p h =
    ground (arith, memcpy_loop-eq n (poke b (dest + i) (b (src + i))) dest src (i + 1) p)

-- `memcpy` copies the `n` bytes to `dest`, and changes no other byte, if the areas are apart with
-- the source in front, or the destination is not behind the source.
pub memcpy-eq :
    (b : Bytes) (dest src n p : ℕ)
    → (dest ≤ src) ⊎ (src + n ≤ dest)
    → memcpy b dest src n p
      ≡ (if leb dest p then (if ltb p (dest + n) then b (p + src - dest) else b p) else b p)
unfolding memcpy
memcpy-eq b dest src n p (inl h) = ground (arith, memcpy_loop-eq n b dest src 0 p (inl h))
memcpy-eq b dest src n p (inr h) =
    ground (arith, memcpy_loop-eq n b dest src 0 p (inr (omega arith)))

strlen_loop-eq :
    (cs : List ℕ) (fuel : ℕ) (b : Bytes) (s len : ℕ)
    → Str b (s + len) cs
    → length cs < fuel
    → strlen_loop fuel b s len ≡ some (len + length cs)
unfolding strlen_loop
strlen_loop-eq [] zero b s len h f = absurd (omega arith)
strlen_loop-eq [] (suc n) b s len h f = rw h (ap some (omega arith))
strlen_loop-eq (c ∷ cs) zero b s len h f = absurd (omega arith)
strlen_loop-eq (c ∷ cs) (suc n) b s len h f =
    let step : s + len + 1 ≡ s + (len + 1) = omega arith in
    rw (h.0, ne→==_false c 0 h.1)
      (strlen_loop-eq cs n b s (len + 1) (subst (λ p. Str b p cs) step h.3) (omega arith)
        ∙ ap some (omega arith))

at_start : (b : Bytes) (s : ℕ) (cs : List ℕ) → Str b s cs → Str b (s + 0) cs
at_start b s cs h = subst (λ p. Str b p cs) (omega arith) h

-- Given more rounds than there are bytes, `strlen` ends and counts the bytes in front of the 0.
pub strlen-length :
    (cs : List ℕ) (fuel : ℕ) (b : Bytes) (s : ℕ)
    → Str b s cs
    → length cs < fuel
    → strlen fuel b s ≡ some (length cs)
unfolding strlen
strlen-length cs fuel b s h f =
    strlen_loop-eq cs fuel b s 0 (at_start b s cs h) f ∙ ap some (omega arith)

reindex : (b : Bytes) (p q : ℕ) → p ≡ q → b p ≡ b q
reindex b p q e = ap b e

-- A string survives a move of its bytes, the 0 included.
Str-shift :
    (cs : List ℕ) (b b' : Bytes) (p q : ℕ)
    → Str b p cs
    → ((i : ℕ) → i ≤ length cs → b' (q + i) ≡ b (p + i))
    → Str b' q cs
Str-shift [] b b' p q h same =
    reindex b' q (q + 0) (omega arith)
    ∙ same 0 (omega arith)
    ∙ reindex b (p + 0) p (omega arith)
    ∙ h
Str-shift (c ∷ cs) b b' p q h same = (
  reindex b' q (q + 0) (omega arith)
      ∙ same 0 (omega arith)
      ∙ reindex b (p + 0) p (omega arith)
      ∙ h.0,
  h.1,
  h.2,
  Str-shift cs b b' (p + 1) (q + 1) h.3 λ i hi.
      reindex b' (q + 1 + i) (q + (i + 1)) (omega arith)
      ∙ same (i + 1) (omega arith)
      ∙ reindex b (p + (i + 1)) (p + 1 + i) (omega arith),
)

-- Given more rounds than there are bytes, `strcpy` to a place apart from the source or in front of it
-- leaves the string, its 0 included, at `dest`, and
-- changes no byte outside the copy.
pub strcpy-Str :
    (cs : List ℕ) (fuel : ℕ) (b : Bytes) (dest src : ℕ)
    → Str b src cs
    → length cs < fuel
    → (dest ≤ src) ⊎ (src + (length cs + 1) ≤ dest)
    → (b' : Bytes) × (strcpy fuel b dest src ≡ some b')
      × Str b' dest cs
      × ((p : ℕ) → (p < dest) ⊎ (dest + length cs < p) → b' p ≡ b p)
unfolding strcpy
strcpy-Str cs fuel b dest src h f apart =
    let copied = λ (p : ℕ). memcpy-eq b dest src (length cs + 1) p apart in
    (
      memcpy b dest src (length cs + 1),
      rw (strlen-length cs fuel b src h f, strcpy),
      Str-shift cs b (memcpy b dest src (length cs + 1)) src dest h
          (λ i hi. copied (dest + i) ∙ ground (arith, reindex b (dest + i + src - dest) (src + i))),
      λ p out. ground (arith, copied p),
    )

-- The sum of the bytes.
abbrev pub sum : List ℕ → ℕ
sum [] = 0
sum (c ∷ cs) = c + sum cs

strval_loop-sum :
    (cs : List ℕ) (fuel : ℕ) (b : Bytes) (s index acc : ℕ)
    → Str b (s + index) cs
    → length cs < fuel
    → acc + sum cs < 2 ^ 64
    → strval_loop fuel b s index acc ≡ some (acc + sum cs)
unfolding strval_loop
strval_loop-sum [] zero b s index acc h f w = absurd (omega arith)
strval_loop-sum [] (suc n) b s index acc h f w = rw h (ap some (omega arith))
strval_loop-sum (c ∷ cs) zero b s index acc h f w = absurd (omega arith)
strval_loop-sum (c ∷ cs) (suc n) b s index acc h f w =
    let step : s + index + 1 ≡ s + (index + 1) = omega arith in
    let no_wrap : add64 acc c ≡ acc + c = omega arith in
    rw (h.0, ne→==_false c 0 h.1, no_wrap)
      (strval_loop-sum cs n b s (index + 1) (acc + c) (subst (λ p. Str b p cs) step h.3)
          (omega arith) (omega arith)
        ∙ ap some (omega arith))

strval-sum :
    (cs : List ℕ) (fuel : ℕ) (b : Bytes) (s : ℕ)
    → Str b s cs
    → length cs < fuel
    → sum cs < 2 ^ 64
    → strval fuel b s ≡ some (sum cs)
unfolding strval
strval-sum cs fuel b s h f w =
    strval_loop-sum cs fuel b s 0 0 (at_start b s cs h) f (omega arith) ∙ ap some (omega arith)

-- `strcmp` compares the sums of the bytes: given more rounds than there are bytes, on strings whose
-- sums fit an `int`, it returns the
-- difference of the sums, so it is 0 exactly if the sums agree, and two strings with the same bytes
-- in another order are equal for it.
pub strcmp-sum :
    (xs ys : List ℕ) (fuel : ℕ) (b : Bytes) (s1 s2 : ℕ)
    → Str b s1 xs
    → Str b s2 ys
    → length xs < fuel
    → length ys < fuel
    → sum xs < 2 ^ 31
    → sum ys < 2 ^ 31
    → (r : ℕ) × (strcmp fuel b s1 s2 ≡ some r)
      × ((r ≡ 0) ↔ (sum xs ≡ sum ys))
      × ((r < 2 ^ 31) ↔ (sum ys ≤ sum xs))
unfolding strcmp
strcmp-sum xs ys fuel b s1 s2 h1 h2 f1 f2 w1 w2 = (
  sub64 (sum xs) (sum ys) % 2 ^ 32,
  rw (
    strval-sum xs fuel b s1 h1 f1 (omega arith),
    strval-sum ys fuel b s2 h2 f2 (omega arith),
    strcmp,
  ),
  (λ e. omega arith, λ e. omega arith),
  (λ e. omega arith, λ e. omega arith),
)

-- Where `strchr` finds the byte `c`: behind the bytes in front of it.
abbrev pub index_of : ℕ → List ℕ → Option ℕ
index_of c [] = none
index_of c (x ∷ xs) =
    if x == c then some 0 else elim (index_of c xs) [ none ↦ none | some i ↦ some (i + 1) ]

-- The address of a found index, or null.
abbrev pub address : ℕ → Option ℕ → ℕ
address s none = null
address s (some i) = s + i

address_suc :
    (s index : ℕ) (o : Option ℕ)
    → address (s + (index + 1)) o
      ≡ address (s + index) (elim o [ none ↦ none | some i ↦ some (i + 1) ])
address_suc s index none = refl
address_suc s index (some i) = omega arith

strchr_loop-index :
    (cs : List ℕ) (c fuel : ℕ) (b : Bytes) (s index : ℕ)
    → Str b (s + index) cs
    → length cs < fuel
    → c ≢ 0
    → c < 128
    → strchr_loop fuel b s c index ≡ some (address (s + index) (index_of c cs))
unfolding strchr_loop char_to_int
strchr_loop-index [] c zero b s index h f ne lt = absurd (omega arith)
strchr_loop-index [] c (suc n) b s index h f ne lt = rw (h, ne→==_false c 0 ne)
strchr_loop-index (x ∷ xs) c zero b s index h f ne lt = absurd (omega arith)
strchr_loop-index (x ∷ xs) c (suc n) b s index h f ne lt =
    let step : s + index + 1 ≡ s + (index + 1) = omega arith in
    let ih =
      strchr_loop-index xs c n b s (index + 1) (subst (λ p. Str b p xs) step h.3) (omega arith) ne
        lt in
    rw (h.0, ne→==_false x 0 h.1)
      (elim (Bool-cases (x == c)) [
        | inl hit ↦
            let same : (char_to_int x == c) ≡ true = ground arith in
            rw (same, hit) (ap some (omega arith))
        | inr miss ↦
            let other : (char_to_int x == c) ≡ false = ground arith in
            rw (other, miss) (ih ∙ ap some (address_suc s index (index_of c xs)))
      ])

-- For an ASCII byte other than 0, and given more rounds than there are bytes, `strchr` ends and returns the address of its first occurrence, or
-- null if there is none.
pub strchr-index :
    (cs : List ℕ) (c fuel : ℕ) (b : Bytes) (s : ℕ)
    → Str b s cs
    → length cs < fuel
    → c ≢ 0
    → c < 128
    → strchr fuel b s c ≡ some (address s (index_of c cs))
unfolding strchr
strchr-index cs c fuel b s h f ne lt =
    strchr_loop-index cs c fuel b s 0 (at_start b s cs h) f ne lt
    ∙ ap some (ap (λ (k : ℕ). address k (index_of c cs)) (omega arith))

strchr_loop-zero :
    (cs : List ℕ) (fuel : ℕ) (b : Bytes) (s index : ℕ)
    → Str b (s + index) cs
    → length cs < fuel
    → strchr_loop fuel b s 0 index ≡ some (s + index + length cs + 1)
unfolding strchr_loop char_to_int
strchr_loop-zero [] zero b s index h f = absurd (omega arith)
strchr_loop-zero [] (suc n) b s index h f = rw h (ap some (omega arith))
strchr_loop-zero (x ∷ xs) zero b s index h f = absurd (omega arith)
strchr_loop-zero (x ∷ xs) (suc n) b s index h f =
    let step : s + index + 1 ≡ s + (index + 1) = omega arith in
    let ih =
      strchr_loop-zero xs n b s (index + 1) (subst (λ p. Str b p xs) step h.3) (omega arith) in
    let other : (char_to_int x == 0) ≡ false = ground arith in
    rw (h.0, ne→==_false x 0 h.1, other) (ih ∙ ap some (omega arith))

-- Asked for the byte 0, and given more rounds than there are bytes, `strchr` returns the address one behind the 0 that ends the string, not the
-- address of that 0.
pub strchr_past_end :
    (cs : List ℕ) (fuel : ℕ) (b : Bytes) (s : ℕ)
    → Str b s cs
    → length cs < fuel
    → strchr fuel b s 0 ≡ some (s + length cs + 1)
unfolding strchr
strchr_past_end cs fuel b s h f =
    strchr_loop-zero cs fuel b s 0 (at_start b s cs h) f ∙ ap some (omega arith)
