-- ===== src/ScanCode/Lookup.antt =====
-- What the loop finds, and that nothing behind the array matters for a code in it.
use skip_os.Common.{
  ℕ, ◌<◌, ◌≡◌, refl, ◌∙◌, subst, Bool, true, false, ◌==◌, if◌then◌else◌, Bool-cases, List, [], ◌∷◌,
  ◌++◌, take, get_or, table_holds, table_lookup, ==_iff, inl, inr,
}
use skip_os.ScanCode.{ScodeMapElem, sc_map, scode_loop, char_from_scode}

-- The element at an index.
abbrev pub elem_at : ℕ → ScodeMapElem
elem_at i = get_or sc_map i (0, 0, 0)

-- `scode` is the code of an element.
unfoldable pub known : List ScodeMapElem → ℕ → Bool
known [] scode = false
known ((c, shift_c, s) ∷ rest) scode =
    let later = known rest scode in if s == scode then true else later

-- Once a list has a code, what is behind the list does not matter.
scode_loop-append :
    (xs ys : List ScodeMapElem) (scode : ℕ) (shift_pressed : Bool)
    → known xs scode ≡ true
    → scode_loop (xs ++ ys) scode shift_pressed ≡ scode_loop xs scode shift_pressed
unfolding scode_loop known
scode_loop-append [] ys scode shift_pressed h = cc
scode_loop-append ((c, shift_c, s) ∷ xs) ys scode shift_pressed h = elim (Bool-cases (s == scode)) [
  | inl e ↦ rw e refl
  | inr e ↦ rw e (
      scode_loop-append xs ys scode shift_pressed
        (subst (λ b. (if b then true else known xs scode) ≡ true) e h))
]

known_table : table_holds (λ i. known sc_map (elem_at i).2) 42 ≡ true
unfolding table_holds known
known_table = refl

plain_table : table_holds (λ i. scode_loop sc_map (elem_at i).2 false == (elem_at i).0) 42 ≡ true
unfolding table_holds scode_loop
plain_table = refl

shift_table : table_holds (λ i. scode_loop sc_map (elem_at i).2 true == (elem_at i).1) 42 ≡ true
unfolding table_holds scode_loop
shift_table = refl

in_map :
    (i : ℕ) (shift_pressed : Bool)
    → i < 42
    → scode_loop sc_map (elem_at i).2 shift_pressed
      ≡ (if shift_pressed then (elem_at i).1 else (elem_at i).0)
in_map i true h =
    (==_iff _ (elem_at i).1).0
      (table_lookup (λ j. scode_loop sc_map (elem_at j).2 true == (elem_at j).1) 42 shift_table i h)
in_map i false h =
    (==_iff _ (elem_at i).0).0 (
      table_lookup (λ j. scode_loop sc_map (elem_at j).2 false == (elem_at j).0) 42 plain_table i h)

-- For the scan code of each of the 42 elements of the map, `char_from_scode` returns the character of
-- that element, or the one with shift, whatever stands behind the array.
pub char_from_scode-elem_at :
    (behind : List ScodeMapElem) (i : ℕ) (shift_pressed : Bool)
    → i < 42
    → char_from_scode behind (elem_at i).2 shift_pressed
      ≡ (if shift_pressed then (elem_at i).1 else (elem_at i).0)
unfolding char_from_scode
char_from_scode-elem_at behind i shift_pressed h =
    scode_loop-append sc_map (take 84 behind) (elem_at i).2 shift_pressed
      (table_lookup (λ j. known sc_map (elem_at j).2) 42 known_table i h)
    ∙ in_map i shift_pressed h
