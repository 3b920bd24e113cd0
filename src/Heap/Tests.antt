-- ===== src/Heap/Tests.antt =====
-- memoryManager.c: runs of the heap, and its theorems at concrete heaps.
use g21_tp2_so_1c.Base.{ℕ, ◌<◌, ◌≡◌, refl, Bool, true, false, none, some, [], ◌∷◌, arith}
use g21_tp2_so_1c.Heap.{
  Block, Heap, align4, first_fit, split_block, mark_free, coalesce, coalesce_from, my_mem_init,
  my_malloc, my_free,
}
use g21_tp2_so_1c.Heap.Valid.{IsValid}
use g21_tp2_so_1c.Heap.Blocks.{Holds, IsCoalesced}
use g21_tp2_so_1c.Heap.Fresh.{FreshOrNull, my_malloc-FreshOrNull}
use g21_tp2_so_1c.Heap.Alloc.{Answer, my_malloc-Answer, my_malloc-IsCoalesced, oversized_request}
use g21_tp2_so_1c.Heap.Free.{Frees, freed, my_free-Frees}

abbrev block : ℕ → ℕ → Bool → Block
block a n f = record { addr = a; size = n; free = f }

-- 200 bytes at 1000: 40 in use, 20 free, the rest in use.
abbrev busy : Heap
busy = record {
  heap_start = 1000;
  heap_size = 200;
  free_list = block 1000 40 false ∷ block 1056 20 true ∷ block 1092 92 false ∷ [];
  mem_info = record { total_mem = 200; used_mem = 164; free_mem = 36 };
  wild_frees = 0;
}

abbrev blank : Heap
blank = record {
  heap_start = 0;
  heap_size = 0;
  free_list = [];
  mem_info = record { total_mem = 0; used_mem = 0; free_mem = 0 };
  wild_frees = 0;
}

busy-IsValid : IsValid busy
busy-IsValid = omega arith

-- Three requests split the heap; freeing the middle one and then the first merges both.
malloc_runs : (my_malloc (my_mem_init blank 1000 200) 10).0 ≡ some 1016
unfolding my_malloc my_mem_init align4 first_fit split_block
malloc_runs = refl

free_merges :
    (my_free busy 1016)
    ≡ some (record {
      heap_start = 1000;
      heap_size = 200;
      free_list = block 1000 76 true ∷ block 1092 92 false ∷ [];
      mem_info = record { total_mem = 200; used_mem = 108; free_mem = 36 };
      wild_frees = 0;
    })
unfolding my_free mark_free coalesce coalesce_from
free_merges = refl

free_wild : my_free busy 1020 ≡ none
unfolding my_free mark_free
free_wild = refl

my_malloc-Answer_example : Answer busy 17 (my_malloc busy 17)
my_malloc-Answer_example = my_malloc-Answer busy 17 busy-IsValid

my_malloc-IsCoalesced_example : IsCoalesced (my_malloc busy 17).1.free_list
my_malloc-IsCoalesced_example = my_malloc-IsCoalesced busy 17 (refl, (refl, (refl, tt)))

my_free-Frees_example :
    Frees busy 1016 (block 1000 40 false) (freed busy 1016 (block 1000 40 false))
my_free-Frees_example =
    my_free-Frees busy 1016 (block 1000 40 false) busy-IsValid
      (record { found = refl; busy = refl })

my_malloc-FreshOrNull_example : FreshOrNull busy 17 (my_malloc busy 17).0
my_malloc-FreshOrNull_example = my_malloc-FreshOrNull busy 17 (omega arith) busy-IsValid

oversized_request_example :
    (h' : Heap) × (c : Block) × (my_malloc (my_mem_init blank 1000 200) 4294967295
      ≡ (some 1016, h'))
    × Holds h'.free_list 1016 c
    × (c.size < 20)
unfolding my_mem_init
oversized_request_example =
    oversized_request (my_mem_init blank 1000 200) 4294967295 (block 1000 184 true) [] (omega arith)
      (omega arith) refl refl
