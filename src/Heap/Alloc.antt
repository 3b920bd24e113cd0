-- ===== src/Heap/Alloc.antt =====
-- memoryManager.c: `my_malloc`.
use g21_tp2_so_1c.Base.{
  ℕ, ◌+◌, ◌-◌, ◌≤◌, ◌<◌, ◌≡◌, ◌≢◌, refl, subst, true, false, Option, none, some, List, [], ◌∷◌,
  ◌++◌, arith, sym,
}
use g21_tp2_so_1c.Heap.{
  Block, Heap, block_header_size, u32_mod, align4, fits, split_block, my_malloc, granted, first_fit,
}
use g21_tp2_so_1c.Heap.Layout.{Tiles, FirstFit, AllUnfit}
use g21_tp2_so_1c.Heap.Valid.{IsValid, malloc_cases, granted-IsValid}
use g21_tp2_so_1c.Heap.Blocks.{
  Holds, block_at-Inside, IsCoalesced, split-CoalescedAfter, CoalescedAfter-append,
}

-- Rounding up to a multiple of four does not wrap below 2^32 - 3.
pub align4-le : (n : ℕ) → n ≤ u32_mod - 4 → n ≤ align4 n
unfolding align4
align4-le n h = omega arith

pub align4_wraps : (n : ℕ) → u32_mod - 4 < n → n < u32_mod → align4 n ≡ 0
unfolding align4
align4_wraps n h k = omega arith

-- The block that the search hands out is at least as large as asked, and in use.
pub split_block-granted :
    (size : ℕ) (b : Block) (bs : List Block)
    → fits size b ≡ true
    → let (c, _) = split_block size b bs in (size ≤ c.size) × (c.free ≡ false) × (c.addr ≡ b.addr)
unfolding split_block
split_block-granted size b bs f = ground arith

-- A block in use elsewhere is where it was.
split_block-Holds :
    (size a e : ℕ) (b : Block) (bs : List Block) (q : ℕ) (x : Block)
    → Tiles a (b ∷ bs) e
    → fits size b ≡ true
    → Holds (b ∷ bs) q x
    → let (c, cs) = split_block size b bs in Holds (c ∷ cs) q x × (c.addr + block_header_size ≢ q)
unfolding split_block
split_block-Holds size a e b bs q x t f h =
    ground (arith, block_at-Inside (a + block_header_size + b.size) e q bs x t.1)

addr-ge :
    (a e : ℕ) (xs : List Block) (b : Block) (bs : List Block)
    → Tiles a (xs ++ (b ∷ bs)) e
    → a ≤ b.addr
addr-ge a e [] b bs t = omega arith
addr-ge a e (x ∷ xs) b bs t = omega (arith, addr-ge (a + block_header_size + x.size) e xs b bs t.1)

-- The same with the blocks that were passed over in front.
append-split-Holds :
    (size a e : ℕ) (xs : List Block) (b : Block) (bs : List Block) (q : ℕ) (x : Block)
    → Tiles a (xs ++ (b ∷ bs)) e
    → fits size b ≡ true
    → Holds (xs ++ (b ∷ bs)) q x
    → let (c, cs) = split_block size b bs in
      Holds (xs ++ (c ∷ cs)) q x × (c.addr + block_header_size ≢ q)
append-split-Holds size a e [] b bs q x t f h = split_block-Holds size a e b bs q x t f h
append-split-Holds size a e (y ∷ xs) b bs q x t f h = ground (
  arith,
  addr-ge (a + block_header_size + y.size) e xs b bs t.1,
  split_block-granted size b bs f,
  append-split-Holds size (a + block_header_size + y.size) e xs b bs q x t.1 f,
)

-- The chosen block is found at its own pointer.
append-Holds :
    (a e : ℕ) (xs : List Block) (b : Block) (bs : List Block)
    → Tiles a (xs ++ (b ∷ bs)) e
    → b.free ≡ false
    → Holds (xs ++ (b ∷ bs)) (b.addr + block_header_size) b
append-Holds a e [] b bs t f = ground arith
append-Holds a e (y ∷ xs) b bs t f = ground (
  arith,
  addr-ge (a + block_header_size + y.size) e xs b bs t.1,
  append-Holds (a + block_header_size + y.size) e xs b bs t.1 f,
)

-- What a caller of `my_malloc` gets: a block in use at the pointer, large enough, at a pointer that
-- held no block in use, with every block in use elsewhere untouched.
pub record Grants (h : Heap) (n p : ℕ) (h' : Heap) : Type 0 where
  pub block : Block
  pub holds : Holds h'.free_list p block
  pub enough : align4 n ≤ block.size
  pub fresh : (q : ℕ) (x : Block) → Holds h.free_list q x → q ≢ p
  pub others : (q : ℕ) (x : Block) → Holds h.free_list q x → Holds h'.free_list q x

FirstFit-others :
    (size a e : ℕ) (bs : List Block) (c : Block) (cs : List Block)
    → Tiles a bs e
    → FirstFit size bs c cs
    → (q : ℕ) (x : Block) → Holds bs q x
    → Holds cs q x × (c.addr + block_header_size ≢ q)
FirstFit-others size a e bs c cs t f q x h =
    rw (f.left, f.block)
      (append-split-Holds size a e f.before f.chosen f.after q x
        (subst (λ l. Tiles a l e) f.split t) f.fit (subst (λ l. Holds l q x) f.split h))

abbrev pub Answer : Heap → ℕ → Option ℕ × Heap → Type 0
Answer h n (none, h') = AllUnfit (align4 n) h.free_list × (h' ≡ h)
Answer h n (some p, h') = Grants h n p h'

pub granted-Grants :
    (h : Heap) (n : ℕ) (b : Block) (bs : List Block)
    → IsValid h
    → FirstFit (align4 n) h.free_list b bs
    → Grants h n (b.addr + block_header_size) (granted h b bs)
granted-Grants h n b bs v f =
    let old = FirstFit-others (align4 n) h.heap_start _ h.free_list b bs v.tiles f in
    let own = split_block-granted (align4 n) f.chosen f.after f.fit in
    record {
      block = b;
      holds =
          subst (λ l. Holds l (b.addr + block_header_size) b) (sym f.left)
            (append-Holds h.heap_start _ f.before b _
              (subst (λ l. Tiles h.heap_start l (h.heap_start + h.mem_info.total_mem)) f.left
                (granted-IsValid h (align4 n) b bs v f).tiles)
              (rw f.block own.1));
      enough = rw f.block own.0;
      fresh = λ q x k e. (old q x k).1 (sym e);
      others = λ q x k. (old q x k).0;
    }

-- `my_malloc` returns NULL and changes nothing exactly where no free block is large enough for the
-- aligned size. Otherwise the pointer is the data of a block in use of at least that size, no block
-- in use was there before, and every block in use before is in use at the same place after.
pub my_malloc-Answer : (h : Heap) (n : ℕ) → IsValid h → Answer h n (my_malloc h n)
my_malloc-Answer h n v =
    malloc_cases (Answer h n) h n (λ u. (u, refl)) (λ b bs f. granted-Grants h n b bs v f)

granted-IsCoalesced :
    (h : Heap) (size : ℕ) (b : Block) (bs : List Block)
    → IsCoalesced h.free_list
    → FirstFit size h.free_list b bs
    → IsCoalesced (granted h b bs).free_list
granted-IsCoalesced h size b bs c f =
    rw (f.left, f.block)
      (CoalescedAfter-append false f.before (f.chosen ∷ f.after) _
        (λ p k. split-CoalescedAfter size p f.chosen f.after k (let q = f.fit in ground arith))
        (subst IsCoalesced f.split c))

-- `my_malloc` makes no two free blocks neighbours.
pub my_malloc-IsCoalesced :
    (h : Heap) (n : ℕ) → IsCoalesced h.free_list → IsCoalesced (my_malloc h n).1.free_list
my_malloc-IsCoalesced h n c =
    malloc_cases (λ r. IsCoalesced r.1.free_list) h n (λ _. c)
      (λ b bs f. granted-IsCoalesced h (align4 n) b bs c f)

-- What a request of no bytes leaves, where the first block is free.
abbrev zero_granted : Heap → Block → List Block → Heap
zero_granted h b bs = granted h c (c ∷ cs)
  where
    c : Block
    c = (split_block 0 b bs).0

    cs : List Block
    cs = (split_block 0 b bs).1

my_malloc-zero :
    (h : Heap) (n : ℕ) (b : Block) (bs : List Block)
    → align4 n ≡ 0
    → h.free_list ≡ b ∷ bs
    → b.free ≡ true
    → my_malloc h n ≡ (some (b.addr + block_header_size), zero_granted h b bs)
unfolding my_malloc first_fit split_block
my_malloc-zero h n b bs z e f = ground arith

-- A request within three bytes of 2^32 wraps to none at all: where the first block is free, it
-- succeeds and hands out fewer than 20 bytes.
pub oversized_request :
    (h : Heap) (n : ℕ) (b : Block) (bs : List Block)
    → u32_mod - 4 < n
    → n < u32_mod
    → h.free_list ≡ b ∷ bs
    → b.free ≡ true
    → (h' : Heap) × (c : Block) × (my_malloc h n ≡ (some (b.addr + block_header_size), h'))
      × Holds h'.free_list (b.addr + block_header_size) c
      × (c.size < 20)
unfolding split_block
oversized_request h n b bs lo hi e f = (
  zero_granted h b bs,
  (split_block 0 b bs).0,
  my_malloc-zero h n b bs (align4_wraps n lo hi) e f,
  ground arith,
  ground arith,
)
