-- ===== src/Heap/Arena.antt =====
-- memoryManager.c: the tiling of the arena under every operation, for any pointer given back.
use g21_tp2_so_1c.Base.{
  ap, true, ℕ, ◌+◌, ◌<◌, ◌≡◌, refl, Option, none, some, List, [], ◌∷◌, arith, ◌==◌, Bool-cases, inl,
  inr,
}
use mathlib.Core.Option
use g21_tp2_so_1c.Heap.{
  mem_dump, Block, Heap, block_header_size, u32_mod, mark_free, my_malloc, my_free, released,
  align4,
}
use g21_tp2_so_1c.Heap.Layout.{Tiles, coalesce-Tiles}
use g21_tp2_so_1c.Heap.Valid.{malloc_cases, FirstFit-Tiles}
use g21_tp2_so_1c.Heap.Free.{mark_at, mark_at-Tiles}

-- The blocks lie one behind the other from the start of the heap to its end.
pub record IsTiled (h : Heap) : Type 0 where
  pub tiles : Tiles h.heap_start h.free_list (h.heap_start + h.mem_info.total_mem)
  pub small : h.mem_info.total_mem < u32_mod

pub my_malloc-IsTiled : (h : Heap) (n : ℕ) → IsTiled h → IsTiled (my_malloc h n).1
my_malloc-IsTiled h n v =
    malloc_cases (λ r. IsTiled r.1) h n (λ _. v)
      (λ b bs f. record {
        tiles = FirstFit-Tiles (align4 n) h.heap_start _ h.free_list b bs f v.tiles;
        small = v.small;
      })

-- What `my_free` finds, where it finds a block.
MarksTo : Option (ℕ × List Block) → List Block → Type 0
MarksTo none bs = Unit {0}
MarksTo (some r) bs = r.1 ≡ bs

MarksTo-cons :
    (b : Block) (m : Option (ℕ × List Block)) (bs : List Block)
    → MarksTo m bs
    → MarksTo (Option.map (λ (r : ℕ × List Block). (r.0, b ∷ r.1)) m) (b ∷ bs)
unfolding MarksTo
MarksTo-cons b none bs h = tt
MarksTo-cons b (some r) bs h = ap (λ (l : List Block). b ∷ l) h

MarksTo-found : (n : ℕ) (bs : List Block) → MarksTo (some (n, bs)) bs
unfolding MarksTo
MarksTo-found n bs = refl

MarksTo-null : (bs : List Block) → MarksTo none bs
unfolding MarksTo
MarksTo-null bs = tt

mark_free-MarksTo : (ptr : ℕ) (bs : List Block) → MarksTo (mark_free ptr bs) (mark_at ptr bs)
unfolding mark_free
mark_free-MarksTo ptr [] = MarksTo-null []
mark_free-MarksTo ptr (b ∷ bs) = elim (Bool-cases (b.addr + block_header_size == ptr)) [
  | inl y ↦ rw y (MarksTo-found b.size (record b { free = true } ∷ bs))
  | inr n ↦ rw n (MarksTo-cons b (mark_free ptr bs) (mark_at ptr bs) (mark_free-MarksTo ptr bs))
]

released-IsTiled :
    (h : Heap) (p : ℕ) (m : Option (ℕ × List Block))
    → MarksTo m (mark_at p h.free_list)
    → IsTiled h
    → IsTiled (elim (Option.map (λ (r : ℕ × List Block). released h r.0 r.1) m) [
      | none ↦ record h { wild_frees = h.wild_frees + 1 }
      | some h' ↦ h'
    ])
unfolding MarksTo
released-IsTiled h p none e v = record { tiles = v.tiles; small = v.small }
released-IsTiled h p (some r) e v = record {
  tiles = rw e (
      coalesce-Tiles h.heap_start _ (mark_at p h.free_list) (omega (arith, v.small))
        (mark_at-Tiles h.heap_start _ p h.free_list v.tiles));
  small = v.small;
}

-- Where the pointer heads no block the call is counted, and the blocks are taken as they were.
pub my_free-IsTiled :
    (h : Heap) (p : ℕ)
    → IsTiled h
    → IsTiled
        (elim (my_free h p) [ none ↦ record h { wild_frees = h.wild_frees + 1 } | some h' ↦ h' ])
unfolding my_free
my_free-IsTiled h p v = elim (Bool-cases (p == 0)) [
  | inl y ↦ rw y v
  | inr n ↦
      rw n (released-IsTiled h p (mark_free p h.free_list) (mark_free-MarksTo p h.free_list) v)
]

pub mem_dump-IsTiled : (h : Heap) → IsTiled h → IsTiled (mem_dump h).1
unfolding mem_dump
mem_dump-IsTiled h v = record { tiles = v.tiles; small = v.small }
