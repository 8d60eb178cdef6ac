-- ===== src/PfAlloc/Boot/Kept.antt =====
-- What is read of the tags in two memories, core/src/pf_alloc.c: the same where they agree.
use skip_os.Common.{ℕ, ◌+◌, ◌-◌, ◌*◌, ◌%◌, ◌^◌, ◌≤◌, ◌≡◌, refl, arith}
use skip_os.Common.Words.{Memory}
use skip_os.PfAlloc.Boot.{
  Bytes, ElfInfo, u32_at, u64_at, bytes_of, mem_info_at, sec_addr, sec_size, upper_base,
  upper_length, init_ll_head_info,
}

-- Memories that agree from an address on have the same bytes and numbers there.
module _ (b b' : Bytes) (l : ℕ) (kept : (p : ℕ) → l ≤ p → b' p ≡ b p) where
  u32_kept : (p : ℕ) → l ≤ p → u32_at b' p ≡ u32_at b p
  unfolding u32_at
  u32_kept p h =
      rw
        (
          kept p h,
          kept (p + 1) (omega arith),
          kept (p + 2) (omega arith),
          kept (p + 3) (omega arith),
        )
        refl

  pub u64_kept : (p : ℕ) → l ≤ p → u64_at b' p ≡ u64_at b p
  unfolding u64_at
  u64_kept p h = rw (u32_kept p h, u32_kept (p + 4) (omega arith)) refl

  mem_info_kept : (p : ℕ) → l ≤ p → mem_info_at b' p ≡ mem_info_at b p
  unfolding mem_info_at
  mem_info_kept p h =
      rw (u64_kept p h, u64_kept (p + 8) (omega arith), u32_kept (p + 16) (omega arith)) refl

  pub info_kept :
      (m : Memory) (elf : ElfInfo) (p : ℕ)
      → l ≤ elf.sec_head_ent_arr
      → l ≤ p
      → init_ll_head_info b' m 0 elf (mem_info_at b' p)
        ≡ init_ll_head_info b m 0 elf (mem_info_at b p)
  unfolding init_ll_head_info upper_base upper_length sec_addr sec_size
  info_kept m elf p h hp =
      let last = (elf.num_sec_head_ents + 2 ^ 32 - 1) % 2 ^ 32 in
      rw
        (
          mem_info_kept p hp,
          u64_kept (elf.sec_head_ent_arr + 64 * last + 16) (omega arith),
          u64_kept (elf.sec_head_ent_arr + 64 * last + 32) (omega arith),
          u64_kept (elf.sec_head_ent_arr + 64 * 1 + 16) (omega arith),
        )
        refl

pub bytes_kept :
    (m m' : Memory) (l : ℕ)
    → l % 8 ≡ 0
    → ((a : ℕ) → l ≤ a → m' a ≡ m a)
    → (p : ℕ) → l ≤ p
    → bytes_of m' p ≡ bytes_of m p
unfolding bytes_of
bytes_kept m m' l al kept p h = rw (kept (p - p % 8) (omega arith)) refl
