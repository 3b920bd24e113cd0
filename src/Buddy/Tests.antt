-- ===== src/Buddy/Tests.antt =====
-- buddyMemoryManager.c: a run of the buddy heap, and its theorems at concrete heaps.
use g21_tp2_so_1c.Base.{◌≡◌, refl, some, replicate, arith, set}
use g21_tp2_so_1c.Buddy.{
  Buddy, my_mem_init, my_malloc, my_free, log2_ceil, log2_from, head, add_to_free_list,
  remove_from_free_list, split_block, first_order, split_down, merge_up, find_and_remove_buddy,
  walk, get_buddy_address, get_buddy_offset,
}
use g21_tp2_so_1c.Buddy.Order.{Least, log2_ceil-Least}

abbrev blank : Buddy
blank = record {
  free_lists = replicate 33 0;
  max_order = 0;
  heap_start = 0;
  heap_size = 0;
  total_mem = 0;
  used_mem = 0;
  free_mem = 0;
  words = λ a. 0;
}

-- 128 bytes: two requests of 20 get the first two blocks of 32.
second_request : (my_malloc 20 (my_malloc 20 (my_mem_init 4096 128 blank)).1).0 ≡ some 4136
unfolding my_malloc my_mem_init log2_ceil log2_from add_to_free_list remove_from_free_list
    first_order split_down split_block
second_request = refl

-- Given back, a block merges with its free buddies up to the whole heap.
free_merges : head (my_free 4104 (my_malloc 20 (my_mem_init 4096 128 blank)).1) 7 ≡ 4096
unfolding my_malloc my_mem_init log2_ceil log2_from add_to_free_list remove_from_free_list
    first_order split_down split_block my_free merge_up find_and_remove_buddy walk get_buddy_address
    get_buddy_offset
free_merges = refl

log2_ceil-Least_example : Least 0 100 (log2_ceil 100)
log2_ceil-Least_example = log2_ceil-Least 100 (omega arith)

abbrev one_free : Buddy
one_free = record blank { free_lists = set (replicate 33 0) 5 4096 }
