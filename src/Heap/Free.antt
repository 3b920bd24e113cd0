-- ===== src/Heap/Free.antt =====
-- memoryManager.c: `my_free` and `mem_dump`.
use g21_tp2_so_1c.Base.{
  ℕ, ◌+◌, ◌<◌, ◌≡◌, ◌≢◌, true, some, List, [], ◌∷◌, arith, if◌then◌else◌, ◌==◌, ==-false,
}
use g21_tp2_so_1c.Heap.{
  Block, Heap, block_header_size, u32_mod, mark_free, my_free, released, mem_dump,
}
use g21_tp2_so_1c.Heap.Layout.{Tiles, used, used-le, coalesce-Tiles, used-coalesce}
use g21_tp2_so_1c.Heap.Valid.{IsValid}
use g21_tp2_so_1c.Heap.Blocks.{
  Holds, block_at, block_at-Inside, IsCoalesced, coalesce-IsCoalesced, coalesce-Holds,
}

-- The list with the block at `ptr` marked free.
abbrev pub mark_at : ℕ → List Block → List Block
mark_at ptr [] = []
mark_at ptr (b ∷ bs) =
    if b.addr + block_header_size == ptr then record b { free = true } ∷ bs else b ∷ mark_at ptr bs

mark_free-block_at :
    (ptr : ℕ) (bs : List Block) (b : Block)
    → block_at ptr bs ≡ some b
    → mark_free ptr bs ≡ some (b.size, mark_at ptr bs)
unfolding mark_free
mark_free-block_at ptr [] b h = cc
mark_free-block_at ptr (c ∷ bs) b h = ground (arith, mark_free-block_at ptr bs b)

pub mark_at-Tiles : (a e ptr : ℕ) (bs : List Block) → Tiles a bs e → Tiles a (mark_at ptr bs) e
mark_at-Tiles a e ptr [] t = t
mark_at-Tiles a e ptr (b ∷ bs) t =
    ground (arith, mark_at-Tiles (a + block_header_size + b.size) e ptr bs t.1)

used-mark_at :
    (ptr : ℕ) (bs : List Block) (b : Block)
    → Holds bs ptr b
    → used (mark_at ptr bs) + (b.size + block_header_size) ≡ used bs
used-mark_at ptr [] b h = absurd (let q = h.found in cc)
used-mark_at ptr (c ∷ bs) b h = ground (arith, used-mark_at ptr bs b)

mark_at-Holds :
    (ptr q : ℕ) (bs : List Block) (x : Block) → q ≢ ptr → Holds bs q x → Holds (mark_at ptr bs) q x
mark_at-Holds ptr q [] x ne h = h
mark_at-Holds ptr q (c ∷ bs) x ne h = ground (arith, mark_at-Holds ptr q bs x ne)

-- What a caller of `my_free` may rely on.
pub record Frees (h : Heap) (ptr : ℕ) (b : Block) (h' : Heap) : Type 0 where
  pub result : my_free h ptr ≡ some h'
  pub valid : IsValid h'
  pub merged : IsCoalesced h'.free_list
  pub given_back : h'.mem_info.used_mem + (b.size + block_header_size) ≡ h.mem_info.used_mem
  pub others : (q : ℕ) (x : Block) → q ≢ ptr → Holds h.free_list q x → Holds h'.free_list q x

abbrev pub freed : Heap → ℕ → Block → Heap
freed h ptr b = released h b.size (mark_at ptr h.free_list)

-- Freeing a block in use succeeds and keeps the invariant. It gives back the block's bytes, leaves
-- no two free neighbours, and moves no other block in use.
pub my_free-Frees :
    (h : Heap) (ptr : ℕ) (b : Block)
    → IsValid h
    → Holds h.free_list ptr b
    → Frees h ptr b (freed h ptr b)
unfolding my_free
my_free-Frees h ptr b v k =
    let e = h.heap_start + h.mem_info.total_mem in
    let bs = mark_at ptr h.free_list in
    let t = mark_at-Tiles h.heap_start e ptr h.free_list v.tiles in
    let small : e < h.heap_start + u32_mod = omega (arith, v.small) in
    let count = used-mark_at ptr h.free_list b k in
    let keep = used-coalesce h.heap_start e bs small t in
    let fit = used-le h.heap_start e h.free_list v.tiles in
    let total = v.counted in
    record {
      result = rw (
        ==-false ptr 0 (
            let i = block_at-Inside h.heap_start e ptr h.free_list b v.tiles k.found in
            omega (arith, i.start)),
        mark_free-block_at ptr h.free_list b k.found,
      );
      valid = record {
        tiles = coalesce-Tiles h.heap_start e bs small t;
        counted = omega arith;
        small = v.small;
      };
      merged = coalesce-IsCoalesced h.heap_start e bs small t;
      given_back = omega (arith, v.small);
      others = λ q x ne o. coalesce-Holds bs q x (mark_at-Holds ptr q h.free_list x ne o);
    }

-- `mem_dump` reports a free count that makes up the total, and changes nothing else.
pub mem_dump-total :
    (h : Heap)
    → IsValid h
    → let (i, h') = mem_dump h in
      (i.free_mem + i.used_mem ≡ i.total_mem)
      × (i.used_mem ≡ used h.free_list)
      × (h'.mem_info ≡ i)
      × (h'.free_list ≡ h.free_list)
      × IsValid h'
unfolding mem_dump
mem_dump-total h v = let fit = used-le h.heap_start _ h.free_list v.tiles in ground arith
