-- ===== src/PfAlloc/Tests.antt =====
-- The page frame allocator on concrete memories.
use skip_os.Common.{
  ℕ, ◌≡◌, ◌≤◌, ◌≢◌, ◌%◌, ◌<◌, Fresh, refl, ok, halted, ◌==◌, if◌then◌else◌, arith, List, [], ◌∷◌,
  some, inl,
}
use skip_os.Common.Words.{Memory}
use skip_os.PfAlloc.{null, page_size, pf_alloc, pf_free}
use skip_os.PfAlloc.Spec
use skip_os.PfAlloc.Spec.{Pool}
use skip_os.PfAlloc.Refine.{IsPool, Refines, pf_alloc-Refines, pf_free_refines}
use skip_os.PfAlloc.Ownership.{Client, got, gave, Reach, here, next, IsSafe, Reach-IsSafe}
use skip_os.PfAlloc.Progress.{pf_alloc_progress, last_frame_kept, lone_page_halts, free-alloc}
use skip_os.PfAlloc.Boot.{
  bytes_of, mem_info_at, Bytes, UsableMemInfo, ElfInfo, init_pool, find_tag, u32_at, u64_at,
  round_up_nearest_mult, round_down_nearest_mult, upper_base, sec_addr, sec_size,
}
use skip_os.PfAlloc.Boot.Tags.{Tag, Holds, first_of, find_tag-first}
use skip_os.PfAlloc.Boot.Init.{Fits, initial, init_pool-IsPool}

-- Two free frames, the one at 0x2000 on top, and two pages still to come.
abbrev two_frames : Memory
two_frames a =
    if a == 0
    then 0x1000
    else if a == 8
    then 0x2000
    else if a == 16
    then 0x100000
    else if a == 24
    then 0x2000
    else if a == 32
    then 2
    else if a == 0x2008
    then 0x1000
    else if a == 0x1000
    then 0x2000
    else 0

abbrev two_pool : Pool
two_pool = record { frames = 0x2000 ∷ 0x1000 ∷ []; base = 0x100000; unpooled = 2 }

two_frames-IsPool : IsPool two_frames two_pool
two_frames-IsPool = omega arith

-- One free frame and nothing to come.
abbrev one_frame : Memory
one_frame a = if a == 0 then 0x1000 else if a == 8 then 0x1000 else if a == 16 then 0x100000 else 0

abbrev one_pool : Pool
one_pool = record { frames = 0x1000 ∷ []; base = 0x100000; unpooled = 0 }

one_frame-IsPool : IsPool one_frame one_pool
one_frame-IsPool = omega arith

-- No free frame and one page to come.
abbrev lone_page : Memory
lone_page a = if a == 16 then 0x100000 else if a == 24 then 0x1000 else if a == 32 then 1 else 0

abbrev lone_pool : Pool
lone_pool = record { frames = []; base = 0x100000; unpooled = 1 }

lone_page-IsPool : IsPool lone_page lone_pool
lone_page-IsPool = omega arith

pf_alloc-Refines_example : Refines (pf_alloc two_frames) (Spec.alloc two_pool)
pf_alloc-Refines_example = pf_alloc-Refines two_frames two_pool two_frames-IsPool

pf_free_refines_example :
    (m' : Memory) × (pf_free two_frames 0x3000 ≡ ok m') × IsPool m' (Spec.free 0x3000 two_pool)
pf_free_refines_example =
    pf_free_refines two_frames two_pool 0x3000 two_frames-IsPool (omega arith) (omega arith)
      (omega arith)

last_frame_kept_example : (m' : Memory) × (pf_alloc one_frame ≡ ok (null, m')) × IsPool m' one_pool
last_frame_kept_example = last_frame_kept one_frame one_pool one_frame-IsPool refl refl

lone_page_halts_example : pf_alloc lone_page ≡ halted
lone_page_halts_example = lone_page_halts lone_page lone_pool lone_page-IsPool refl refl

free-alloc_example :
    (m1 : Memory) × (m2 : Memory) × (pf_free two_frames 0x3000 ≡ ok m1)
    × (pf_alloc m1 ≡ ok (0x3000, m2))
    × IsPool m2 two_pool
free-alloc_example =
    free-alloc two_frames two_pool 0x3000 two_frames-IsPool (omega arith) (omega arith)
      (omega arith) (omega arith)

pf_alloc_progress_example :
    (a : ℕ) × (s' : Pool) × (m' : Memory) × (pf_alloc two_frames ≡ ok (a, m'))
    × (a ≢ null)
    × (a % page_size ≡ 0)
    × (a < s'.base)
    × Fresh a s'.frames
    × IsPool m' s'
pf_alloc_progress_example =
    pf_alloc_progress two_frames two_pool two_frames-IsPool (inl (omega arith))

-- A caller that holds 0x3000 takes the top frame and gives 0x3000 back.
abbrev before : Client
before = record { mem = two_frames; owned = 0x3000 ∷ [] }

before-IsSafe : IsSafe before
before-IsSafe = record { pool = two_pool; holds = two_frames-IsPool; apart = omega arith }

-- It gives the frame back and takes it again.
abbrev cycle :
    (m1 : Memory) × (m2 : Memory) × (pf_free two_frames 0x3000 ≡ ok m1)
    × (pf_alloc m1 ≡ ok (0x3000, m2))
    × IsPool m2 two_pool
cycle =
    free-alloc two_frames two_pool 0x3000 two_frames-IsPool (omega arith) (omega arith)
      (omega arith) (omega arith)

abbrev after : Client
after = record { mem = cycle.1; owned = 0x3000 ∷ [] }

before-after : Reach before after
before-after =
    next (next here (gave [] [] 0x3000 cycle.0 refl cycle.2 refl))
      (got 0x3000 cycle.1 cycle.3 (omega arith) refl)

Reach-IsSafe_example : IsSafe after
Reach-IsSafe_example = Reach-IsSafe before after before-IsSafe before-after

-- A memory map tag of 16 bytes behind the header, and the end tag.
abbrev tag_area : Bytes
tag_area p = if p == 8 then 6 else if p == 12 then 16 else 0

abbrev tag_list : List Tag
tag_list = record { type = 6; size = 16 } ∷ []

tag_area-Holds : Holds tag_area 8 tag_list
unfolding u32_at round_up_nearest_mult
tag_area-Holds = (refl, refl, omega arith, refl)

tag_found : find_tag 5 tag_area 0 6 ≡ some (first_of 6 8 tag_list)
tag_found = find_tag-first tag_list 5 0 6 tag_area tag_area-Holds (omega arith) (omega arith)

-- The entry of the upper region at 0x1FF000, and two section headers from 0x200000 on: the second is
-- at 0x100000, of 0x5000 bytes.
abbrev boot_memory : Memory
boot_memory a =
    if a == 0x1FF000
    then 0x100000
    else if a == 0x1FF008
    then 0x7ee0000
    else if a == 0x1FF010
    then 1
    else if a == 0x200050
    then 0x100000
    else if a == 0x200060
    then 0x5000
    else 0

abbrev elf : ElfInfo
elf = record { sec_head_ent_arr = 0x200000; num_sec_head_ents = 2 }

abbrev regions : UsableMemInfo
regions = record {
  lower = record { at = 0x1FE000; base_addr = 0; length = 0x9fc00; type = 1 };
  upper = record { at = 0x1FF000; base_addr = 0x100000; length = 0x7ee0000; type = 1 };
}

regions-Fits : Fits (bytes_of boot_memory) regions elf
unfolding bytes_of u64_at round_up_nearest_mult round_down_nearest_mult upper_base sec_addr sec_size
regions-Fits = omega arith

upper_entry : mem_info_at (bytes_of boot_memory) 0x1FF000 ≡ regions.upper
unfolding mem_info_at bytes_of u64_at u32_at
upper_entry = refl

init_pool-IsPool_example :
    (m1 : Memory) × (init_pool boot_memory regions elf ≡ ok m1)
    × IsPool m1 (initial (bytes_of boot_memory) regions elf)
    × ((a : ℕ) → 0x9fc00 ≤ a → m1 a ≡ boot_memory a)
init_pool-IsPool_example = init_pool-IsPool regions elf boot_memory regions-Fits upper_entry
