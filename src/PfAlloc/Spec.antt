-- ===== src/PfAlloc/Spec.antt =====
-- What the page frame allocator promises, with no memory: a stack of free frames, and the upper
-- memory that is not yet in the pool.
use skip_os.Common.{
  ℕ, zero, suc, ◌+◌, ◌-◌, ◌*◌, Run, ok, halted, ltb, ◌==◌, if◌then◌else◌, List, [], ◌∷◌, length,
}
use skip_os.PfAlloc.{null, page_size, pages_to_add}

pub record Pool : Type 0 where
  -- the last one freed or added stands first
  pub frames : List ℕ
  pub base : ℕ
  pub unpooled : ℕ

-- The `n` pages from `base` on, put on the stack in order of address.
unfoldable pub stack : ℕ → ℕ → List ℕ → List ℕ
stack zero base xs = xs
stack (suc n) base xs = stack n (base + page_size) (base ∷ xs)

unfoldable pub add_upper : ℕ → Pool → Pool
add_upper n s = record {
  frames = stack n s.base s.frames;
  base = s.base + n * page_size;
  unpooled = s.unpooled - n;
}

-- Only a stack of two or more frames gives one.
unfoldable pub pop_from : List ℕ → Pool → Run (ℕ × Pool)
pop_from [] s = halted
pop_from (x ∷ []) s = halted
pop_from (x ∷ y ∷ ys) s = ok (x, record s { frames = y ∷ ys })

unfoldable pub pop : Pool → Run (ℕ × Pool)
unfolding pop_from
pop s = pop_from s.frames s

unfoldable pub alloc : Pool → Run (ℕ × Pool)
alloc s =
    if ltb (length s.frames) 2
    then (if s.unpooled == 0 then ok (null, s) else pop (add_upper (pages_to_add s.unpooled) s))
    else pop s

unfoldable pub free : ℕ → Pool → Pool
free p s = record s { frames = p ∷ s.frames }
