-- ===== src/Buddy.antt =====
-- 3_Kernel/2_libraries/buddyMemoryManager.c: the buddy heap, built when USE_BUDDY is defined. Memory is
-- a function from addresses to 64-bit words, 0 stands for NULL: a free block keeps `next` in its first
-- word and `prev` in its second; a used block keeps its header, order and magic, in the first.
pub mod Order
pub mod Lists
mod Tests
use g21_tp2_so_1c.Base.{
  ◌||◌, ℕ, zero, suc, ◌+◌, ◌-◌, ◌*◌, ◌/◌, ◌%◌, ◌^◌, Bool, true, false, not, ◌&&◌, Option, none,
  some, List, get_or, set, replicate, leb, ltb, ◌==◌, if◌then◌else◌,
}

abbrev pub max_possible_order : ℕ
max_possible_order = 32

abbrev pub min_order : ℕ
min_order = 5

abbrev pub alloc_magic : ℕ
alloc_magic = 0xdeadbeef

-- sizeof(alloc_header_t)
abbrev pub header_size : ℕ
header_size = 8

abbrev pub u32_mod : ℕ
u32_mod = 2 ^ 32

-- `free_lists` holds the first block of each order. `words` is the memory.
pub record Buddy : Type 0 where
  pub free_lists : List ℕ
  pub max_order : ℕ
  pub heap_start : ℕ
  pub heap_size : ℕ
  pub total_mem : ℕ
  pub used_mem : ℕ
  pub free_mem : ℕ
  pub words : ℕ → ℕ

abbrev pub poke : ℕ → ℕ → (ℕ → ℕ) → ℕ → ℕ
poke a x m b = if a == b then x else m b

abbrev pub next : Buddy → ℕ → ℕ
next b block = b.words block

abbrev pub prev : Buddy → ℕ → ℕ
prev b block = b.words (block + 8)

abbrev pub put_word : ℕ → ℕ → Buddy → Buddy
put_word a x b = record b { words = poke a x b.words }

abbrev pub put_head : ℕ → ℕ → Buddy → Buddy
put_head order block b = record b { free_lists = set b.free_lists order block }

abbrev pub head : Buddy → ℕ → ℕ
head b order = get_or b.free_lists order 0

-- The loop of `log2_ceil`. `size` is 32 bits wide, so with `n` above 2^31 the loop of the code does not
-- end; the model then uses its fuel up.
unfoldable pub log2_from : ℕ → ℕ → ℕ → ℕ → ℕ
log2_from zero order size n = order
log2_from (suc f) order size n =
    let rest = log2_from f (order + 1) (size * 2 % u32_mod) n in if ltb size n then rest else order

unfoldable pub log2_ceil : ℕ → ℕ
unfolding log2_from
log2_ceil n = log2_from 32 0 1 n

-- `offset ^ (1UL << order)`, where bit `order` of the offset is set or not.
unfoldable pub get_buddy_offset : Buddy → ℕ → ℕ → ℕ
get_buddy_offset b block order =
    let offset = block - b.heap_start in
    let bit = 2 ^ order in (if offset / bit % 2 == 0 then offset + bit else offset - bit) % u32_mod

unfoldable pub get_buddy_address : Buddy → ℕ → ℕ → ℕ
unfolding get_buddy_offset
get_buddy_address b block order = b.heap_start + get_buddy_offset b block order

unfoldable pub add_to_free_list : ℕ → ℕ → Buddy → Buddy
add_to_free_list block order b =
    let first = head b order in
    let b1 = put_word (block + 8) 0 (put_word block first b) in
    put_head order block (if first == 0 then b1 else put_word (first + 8) block b1)

unfoldable pub remove_from_free_list : ℕ → ℕ → Buddy → Buddy
remove_from_free_list block order b =
    let before = prev b block in
    let after = next b block in
    let b1 = if before == 0 then put_head order after b else put_word before after b in
    if after == 0 then b1 else put_word (after + 8) before b1

-- The walk along the free list of `find_and_remove_buddy`.
unfoldable pub walk : ℕ → Buddy → ℕ → ℕ → Bool
walk zero b curr buddy = false
walk (suc f) b curr buddy =
    let rest = walk f b (next b curr) buddy in
    if curr == 0 then false else (if curr == buddy then true else rest)

-- More blocks than the heap has fit in no list of it.
abbrev pub most_blocks : Buddy → ℕ
most_blocks b = b.heap_size / 2 ^ min_order + 1

unfoldable pub find_and_remove_buddy : ℕ → ℕ → Buddy → Option (ℕ × Buddy)
unfolding walk get_buddy_address remove_from_free_list
find_and_remove_buddy block order b =
    let buddy = get_buddy_address b block order in
    if walk (most_blocks b) b (head b order) buddy
    then some (buddy, remove_from_free_list buddy order b)
    else none

unfoldable pub split_block : ℕ → ℕ → Buddy → Buddy
unfolding add_to_free_list
split_block block order b =
    if leb order min_order
    then b
    else add_to_free_list (block + 2 ^ (order - 1)) (order - 1)
        (add_to_free_list block (order - 1) b)

unfoldable pub my_mem_init : ℕ → ℕ → Buddy → Buddy
unfolding log2_ceil add_to_free_list
my_mem_init start size b =
    let up = log2_ceil size in
    let exact = if ltb size (2 ^ up) then up - 1 else up in
    let order = if ltb max_possible_order exact then max_possible_order else exact in
    add_to_free_list start order (record b {
      free_lists = replicate (max_possible_order + 1) 0;
      max_order = order;
      heap_start = start;
      heap_size = size;
      total_mem = size;
      used_mem = 0;
    })

-- The first order from `order` on whose list is not empty, among `n` orders.
unfoldable pub first_order : ℕ → Buddy → ℕ → Option ℕ
first_order zero b order = none
first_order (suc n) b order =
    let rest = first_order n b (order + 1) in if head b order == 0 then rest else some order

-- The splits, `n` of them, that bring the block down from order `order + n` to `order`.
unfoldable pub split_down : ℕ → ℕ → ℕ → Buddy → Buddy
unfolding split_block remove_from_free_list
split_down zero block order b = b
split_down (suc n) block order b =
    split_down n block order
      (remove_from_free_list block (order + n) (split_block block (order + n + 1) b))

abbrev pub allocate : ℕ → ℕ → ℕ → Buddy → ℕ × Buddy
allocate block order from b =
    let b1 = split_down (from - order) block order (remove_from_free_list block from b) in
    (
      block + header_size,
      record (put_word block (order + alloc_magic * u32_mod) b1) {
        used_mem = (b1.used_mem + 2 ^ order) % u32_mod;
      },
    )

abbrev pub order_for : ℕ → ℕ
order_for size =
    let order = log2_ceil ((size + header_size) % u32_mod) in
    if ltb order min_order then min_order else order

unfoldable pub my_malloc : ℕ → Buddy → Option ℕ × Buddy
unfolding first_order split_down log2_ceil
my_malloc size b =
    let order = order_for size in
    if size == 0 || ltb b.max_order order
    then (none, b)
    else elim (first_order (b.max_order + 1 - order) b order) [
      | none ↦ (none, b)
      | some from ↦ let (p, b') = allocate (head b from) order from b in (some p, b')
    ]

-- The merges of `my_free`, at most `n` of them: the block that is left, its order, and the heap.
unfoldable pub merge_up : ℕ → ℕ → ℕ → Buddy → ℕ × ℕ × Buddy
unfolding find_and_remove_buddy
merge_up zero block order b = (block, order, b)
merge_up (suc n) block order b = elim (find_and_remove_buddy block order b) [
  | none ↦ (block, order, b)
  | some (buddy, b') ↦ merge_up n (if ltb buddy block then buddy else block) (order + 1) b'
]

unfoldable pub my_free : ℕ → Buddy → Buddy
unfolding merge_up add_to_free_list
my_free ptr b =
    let block = ptr - header_size in
    let order = b.words block % u32_mod in
    if ptr == 0 || not (b.words block / u32_mod == alloc_magic)
    then b
    else (let b1 = record (put_word block order b) {
      used_mem = (b.used_mem + u32_mod - 2 ^ order % u32_mod) % u32_mod;
    } in
        let (block', order', b2) = merge_up (b.max_order - order) block order b1 in
        add_to_free_list block' order' b2)

unfoldable pub mem_dump : Buddy → Buddy
mem_dump b = record b { free_mem = (b.total_mem + u32_mod - b.used_mem) % u32_mod }
