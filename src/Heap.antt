-- ===== src/Heap.antt =====
-- 3_Kernel/2_libraries/memoryManager.c: the first-fit heap, built when USE_BUDDY is not defined.
-- The list that starts at `free_list` holds every block, used and free, in address order; a
-- block's `next` is the rest of the list. `addr` is the address of the block's header.
pub mod Layout
pub mod Valid
pub mod Blocks
pub mod Alloc
pub mod Fresh
pub mod Free
pub mod Arena
mod Tests
use g21_tp2_so_1c.Base.{
  ℕ, ◌+◌, ◌-◌, ◌*◌, ◌/◌, ◌%◌, ◌^◌, Bool, true, false, ◌&&◌, Option, none, some, List, [], ◌∷◌, leb,
  ◌==◌, if◌then◌else◌,
}
use mathlib.Core.Option

-- sizeof(block_header_t): four bytes, one, three of padding and a pointer.
abbrev pub block_header_size : ℕ
block_header_size = 16

abbrev pub u32_mod : ℕ
u32_mod = 2 ^ 32

pub record Block : Type 0 where
  pub addr : ℕ
  pub size : ℕ
  pub free : Bool

pub record MemInfo : Type 0 where
  pub total_mem : ℕ
  pub used_mem : ℕ
  pub free_mem : ℕ

pub record Heap : Type 0 where
  pub heap_start : ℕ
  pub heap_size : ℕ
  pub free_list : List Block
  pub mem_info : MemInfo
  -- The calls of `my_free` with a pointer that heads no block: the C code then writes to memory that
  -- is no header, and what it does to the blocks is not modelled.
  pub wild_frees : ℕ

-- ALIGN4 on a uint32_t: the subtraction, the shift and the addition wrap.
unfoldable pub align4 : ℕ → ℕ
align4 x = ((x + u32_mod - 1) % u32_mod / 4 * 4 + 4) % u32_mod

-- The first block's data size is stored in 32 bits; `free_mem` is left as it was.
unfoldable pub my_mem_init : Heap → ℕ → ℕ → Heap
my_mem_init h start size = record {
  heap_start = start;
  heap_size = size;
  free_list =
      record { addr = start; size = (size + u32_mod - block_header_size) % u32_mod; free = true }
      ∷ [];
  mem_info = record { total_mem = size; used_mem = 0; free_mem = h.mem_info.free_mem };
  wild_frees = h.wild_frees;
}

-- What the body of the loop of `my_malloc` makes of the block that it chose and the rest.
unfoldable pub split_block : ℕ → Block → List Block → Block × List Block
split_block size b bs =
    if leb (size + block_header_size + 4) b.size
    then (
      record b { size = size; free = false },
      record {
        addr = b.addr + block_header_size + size;
        size = b.size - size - block_header_size;
        free = true;
      }
          ∷ bs,
    )
    else (record b { free = false }, bs)

abbrev pub fits : ℕ → Block → Bool
fits size b = b.free && leb size b.size

-- The loop of `my_malloc`: the block that it returns, and the list that it leaves.
unfoldable pub first_fit : ℕ → List Block → Option (Block × List Block)
first_fit size [] = none
first_fit size (b ∷ bs) =
    let rest = Option.map (λ (r : Block × List Block). (r.0, b ∷ r.1)) (first_fit size bs) in
    if fits size b then (let (c, cs) = split_block size b bs in some (c, c ∷ cs)) else rest

-- The heap once `b` is handed out.
abbrev pub granted : Heap → Block → List Block → Heap
granted h b bs = record h {
  free_list = bs;
  mem_info = record h.mem_info {
    used_mem = (h.mem_info.used_mem + (b.size + block_header_size)) % u32_mod;
  };
}

-- The pointer that it returns, `none` for NULL.
unfoldable pub my_malloc : Heap → ℕ → Option ℕ × Heap
my_malloc h n = elim (first_fit (align4 n) h.free_list) [
  | none ↦ (none, h)
  | some (b, bs) ↦ (some (b.addr + block_header_size), granted h b bs)
]

-- The block whose data start at `ptr`, marked free; `none` where no block's data do.
pub mark_free : ℕ → List Block → Option (ℕ × List Block)
mark_free ptr [] = none
mark_free ptr (b ∷ bs) =
    let rest = Option.map (λ (r : ℕ × List Block). (r.0, b ∷ r.1)) (mark_free ptr bs) in
    if b.addr + block_header_size == ptr then some (b.size, record b { free = true } ∷ bs) else rest

abbrev pub mergeable : Block → Block → Bool
mergeable b c = b.free && c.free && (b.addr + b.size + block_header_size == c.addr)

-- `curr->size` is 32 bits wide.
abbrev pub merge : Block → Block → Block
merge b c = record b { size = (b.size + (block_header_size + c.size)) % u32_mod }

-- The loop of `my_free`, at `curr`: after a merge it stays at the block that grew.
pub coalesce_from : Block → List Block → List Block
coalesce_from b [] = b ∷ []
coalesce_from b (c ∷ bs) = elim (mergeable b c) [
  | true ↦ coalesce_from (merge b c) bs
  | false ↦ b ∷ coalesce_from c bs
]

pub coalesce : List Block → List Block
unfolding coalesce_from
coalesce [] = []
coalesce (b ∷ bs) = coalesce_from b bs

-- The heap once a block of `size` data bytes is given back.
abbrev pub released : Heap → ℕ → List Block → Heap
released h size bs = record h {
  free_list = coalesce bs;
  mem_info = record h.mem_info {
    used_mem = (h.mem_info.used_mem + u32_mod - (size + block_header_size) % u32_mod) % u32_mod;
  };
}

-- `none` where the pointer is neither NULL nor the data of a block: the C code then writes to
-- memory that holds no header.
pub my_free : Heap → ℕ → Option Heap
my_free h ptr =
    if ptr == 0
    then some h
    else Option.map (λ (r : ℕ × List Block). released h r.0 r.1) (mark_free ptr h.free_list)

pub mem_dump : Heap → MemInfo × Heap
mem_dump h =
    let i = record h.mem_info {
      free_mem = (h.mem_info.total_mem + u32_mod - h.mem_info.used_mem) % u32_mod;
    } in
    (i, record h { mem_info = i })
