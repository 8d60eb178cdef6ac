-- ===== src/Keyboard/Keys.antt =====
-- What a stream of scan codes means: keys that are pressed and released, and edits of the screen.
use skip_os.Common.{
  ℕ, Bool, true, false, ◌||◌, Run, ok, ◌>>=◌, ◌==◌, if◌then◌else◌, List, [], ◌∷◌, ◌++◌,
}
use skip_os.Vga.{Vga, display_char, backspace_char}
use skip_os.ScanCode.{ScodeMapElem, char_from_scode}
use skip_os.Keyboard.{l_shift_scode, r_shift_scode, released_scode, backspace_scode, kbd_ack_rsp}

-- A key, by its scan code.
pub data Key : Type 0 where
  pressed released : ℕ → Key

pub data Edit : Type 0 where
  shows : ℕ → Edit
  erases : Edit

-- The keys in a stream of bytes: the byte behind 0xF0 is of a key that is released. The Boolean says
-- whether 0xF0 came last before the stream.
unfoldable pub keys_of : Bool → List ℕ → List Key
keys_of after_release [] = []
keys_of true (b ∷ bs) = released b ∷ keys_of false bs
keys_of false (b ∷ bs) =
    let behind_release = keys_of true bs in
    let others = keys_of false bs in
    if b == released_scode then behind_release else pressed b ∷ others

-- Whether the stream ends with such a 0xF0.
unfoldable pub ends_in_release : Bool → List ℕ → Bool
ends_in_release after_release [] = after_release
ends_in_release true (b ∷ bs) = ends_in_release false bs
ends_in_release false (b ∷ bs) =
    let behind_release = ends_in_release true bs in
    let others = ends_in_release false bs in if b == released_scode then behind_release else others

abbrev pub is_shift : ℕ → Bool
is_shift s = s == l_shift_scode || s == r_shift_scode

-- Shift is down from the press of a shift key to the release of one.
unfoldable pub shift_after : Bool → List Key → Bool
shift_after shift [] = shift
shift_after shift (pressed s ∷ ks) = shift_after (if is_shift s then true else shift) ks
shift_after shift (released s ∷ ks) = shift_after (if is_shift s then false else shift) ks

-- The edits that a key makes by itself.
unfoldable pub key_edits : List ScodeMapElem → Bool → Key → List Edit
key_edits behind shift (released s) = []
key_edits behind shift (pressed s) =
    if is_shift s
    then []
    else if s == backspace_scode
    then erases ∷ []
    else if s == kbd_ack_rsp
    then []
    else shows (char_from_scode behind s shift) ∷ []

unfoldable pub edits : List ScodeMapElem → Bool → List Key → List Edit
unfolding key_edits
edits behind shift [] = []
edits behind shift (pressed s ∷ ks) =
    key_edits behind shift (pressed s) ++ edits behind (if is_shift s then true else shift) ks
edits behind shift (released s ∷ ks) = edits behind (if is_shift s then false else shift) ks

unfoldable pub apply_edits : List Edit → Vga → Run Vga
apply_edits [] vga = ok vga
apply_edits (shows c ∷ es) vga = do vga1 ← display_char c vga; apply_edits es vga1
apply_edits (erases ∷ es) vga = do vga1 ← backspace_char vga; apply_edits es vga1
