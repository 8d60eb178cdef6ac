-- ===== src/Common/Update.antt =====
-- A function on numbers, changed at one of them.
use Prim.Native.Nat.{ℕ}
use mathlib.Core.Path.{◌≡◌, refl}
use mathlib.Core.Logic.{◌≢◌}
use skip_os.Common.Logic.{◌==◌, if◌then◌else◌, ==_refl, ne→==_false}

unfoldable pub update {ℓ} : {A : Type ℓ} → ℕ → A → (ℕ → A) → ℕ → A
update k v f j = if j == k then v else f j

pub update_at {ℓ} : {A : Type ℓ} (k : ℕ) (v : A) (f : ℕ → A) → update k v f k ≡ v
unfolding update
update_at k v f = rw (==_refl k) refl

pub update_ne {ℓ} : {A : Type ℓ} (k : ℕ) (v : A) (f : ℕ → A) (j : ℕ) → j ≢ k → update k v f j ≡ f j
unfolding update
update_ne k v f j h = rw (ne→==_false j k h) refl
