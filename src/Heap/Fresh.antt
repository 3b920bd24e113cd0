-- ===== src/Heap/Fresh.antt =====
-- memoryManager.c: the bytes that `my_malloc` hands out.
use g21_tp2_so_1c.Base.{ℕ, ◌+◌, ◌-◌, ◌≤◌, Option, none, some, List, arith, ◌⊎◌, inl, inr, sym}
use g21_tp2_so_1c.Heap.{Block, Heap, block_header_size, u32_mod, align4, my_malloc}
use g21_tp2_so_1c.Heap.Layout.{FirstFit}
use g21_tp2_so_1c.Heap.Valid.{IsValid, malloc_cases, granted-IsValid}
use g21_tp2_so_1c.Heap.Blocks.{Holds, block_at-Inside, blocks_disjoint}
use g21_tp2_so_1c.Heap.Alloc.{align4-le, granted-Grants}

-- The `n` bytes from `p` on lie in the arena of the heap, and none of them in a block in use, its header
-- included.
pub record Fresh (h : Heap) (n p : ℕ) : Type 0 where
  pub above : h.heap_start + block_header_size ≤ p
  pub below : p + n ≤ h.heap_start + h.mem_info.total_mem
  pub apart : (q : ℕ) (x : Block) → Holds h.free_list q x → (p + n ≤ x.addr) ⊎ (q + x.size ≤ p)

abbrev pub FreshOrNull : Heap → ℕ → Option ℕ → Type 0
FreshOrNull h n none = Unit {0}
FreshOrNull h n (some p) = Fresh h n p

granted-Fresh :
    (h : Heap) (n : ℕ) (b : Block) (bs : List Block)
    → n ≤ u32_mod - 4
    → IsValid h
    → FirstFit (align4 n) h.free_list b bs
    → Fresh h n (b.addr + block_header_size)
granted-Fresh h n b bs l v f =
    let p = b.addr + block_header_size in
    let e = h.heap_start + h.mem_info.total_mem in
    let g = granted-Grants h n b bs v f in
    let t = (granted-IsValid h (align4 n) b bs v f).tiles in
    let i = block_at-Inside h.heap_start e p bs g.block t g.holds.found in
    record {
      above = omega (arith, i.low, i.start);
      below = omega (arith, i.high, g.enough, align4-le n l);
      apart = λ q x k.
          elim (blocks_disjoint h.heap_start e p q bs g.block x t (λ s. g.fresh q x k (sym s))
            g.holds.found (g.others q x k).found) [
              | inl before ↦ inl (omega (arith, before, g.enough, align4-le n l))
              | inr after ↦ inr (omega (arith, after, i.start))
            ];
    }

-- The bytes that `my_malloc` hands out for a request of at most 2^32 - 4 bytes lie in the arena, and none
-- of them in a block that was in use, its header included.
pub my_malloc-FreshOrNull :
    (h : Heap) (n : ℕ) → n ≤ u32_mod - 4 → IsValid h → FreshOrNull h n (my_malloc h n).0
my_malloc-FreshOrNull h n l v =
    malloc_cases (λ r. FreshOrNull h n r.0) h n (λ _. tt) (λ b bs f. granted-Fresh h n b bs l v f)
