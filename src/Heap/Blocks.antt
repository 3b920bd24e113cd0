-- ===== src/Heap/Blocks.antt =====
-- memoryManager.c: the block behind a pointer, and what the operations do to it.
use g21_tp2_so_1c.Base.{
  ℕ, ◌+◌, ◌%◌, ◌≤◌, ◌<◌, ◌≡◌, ◌≢◌, refl, Bool, true, false, Option, none, some, List, [], ◌∷◌, ◌++◌,
  arith, ◌&&◌, if◌then◌else◌, ◌==◌, ◌⊎◌,
}
use g21_tp2_so_1c.Heap.{
  Block, block_header_size, u32_mod, split_block, merge, coalesce_from, coalesce,
}
use g21_tp2_so_1c.Heap.Layout.{Tiles, Tiles-le, Tiles-start}

-- The block whose data start at `ptr`.
abbrev pub block_at : ℕ → List Block → Option Block
block_at ptr [] = none
block_at ptr (b ∷ bs) = if b.addr + block_header_size == ptr then some b else block_at ptr bs

-- `ptr` is the data of block `b`, which is in use.
pub record Holds (bs : List Block) (ptr : ℕ) (b : Block) : Type 0 where
  pub found : block_at ptr bs ≡ some b
  pub busy : b.free ≡ false

-- The block at `ptr` lies inside the span.
pub record Inside (a e ptr : ℕ) (b : Block) : Type 0 where
  pub start : b.addr + block_header_size ≡ ptr
  pub low : a ≤ b.addr
  pub high : ptr + b.size ≤ e

pub block_at-Inside :
    (a e ptr : ℕ) (bs : List Block) (b : Block)
    → Tiles a bs e
    → block_at ptr bs ≡ some b
    → Inside a e ptr b
block_at-Inside a e ptr [] b t p = cc
block_at-Inside a e ptr (c ∷ bs) b t p = ground (
  arith,
  Tiles-le (a + block_header_size + c.size) e bs t.1,
  block_at-Inside (a + block_header_size + c.size) e ptr bs b t.1,
)

-- Two pointers of a tiled heap stand for blocks that do not overlap, headers included.
pub blocks_disjoint :
    (a e p q : ℕ) (bs : List Block) (b c : Block)
    → Tiles a bs e
    → p ≢ q
    → block_at p bs ≡ some b
    → block_at q bs ≡ some c
    → (p + b.size ≤ c.addr) ⊎ (q + c.size ≤ b.addr)
blocks_disjoint a e p q [] b c t ne hp hq = cc
blocks_disjoint a e p q (d ∷ bs) b c t ne hp hq = ground (
  arith,
  block_at-Inside (a + block_header_size + d.size) e p bs b t.1,
  block_at-Inside (a + block_header_size + d.size) e q bs c t.1,
  blocks_disjoint (a + block_header_size + d.size) e p q bs b c t.1 ne,
)

pub block_at-append :
    (q : ℕ) (xs ys : List Block)
    → block_at q (xs ++ ys) ≡ elim (block_at q xs) [ none ↦ block_at q ys | some b ↦ some b ]
block_at-append q [] ys = refl
block_at-append q (x ∷ xs) ys = ground (arith, block_at-append q xs ys)

pub coalesce_from-Holds :
    (b : Block) (bs : List Block) (q : ℕ) (x : Block)
    → Holds (b ∷ bs) q x
    → Holds (coalesce_from b bs) q x
unfolding coalesce_from
coalesce_from-Holds b [] q x h = h
coalesce_from-Holds b (c ∷ bs) q x h =
    ground (arith, coalesce_from-Holds (merge b c) bs q x, coalesce_from-Holds c bs q x)

pub coalesce-Holds : (bs : List Block) (q : ℕ) (x : Block) → Holds bs q x → Holds (coalesce bs) q x
unfolding coalesce
coalesce-Holds [] q x h = h
coalesce-Holds (b ∷ bs) q x h = coalesce_from-Holds b bs q x h

-- After a block whose free flag is `prev`, no free block follows a free block.
abbrev pub CoalescedAfter : Bool → List Block → Type 0
CoalescedAfter prev [] = Unit {0}
CoalescedAfter prev (b ∷ bs) = ((prev && b.free) ≡ false) × CoalescedAfter b.free bs

abbrev pub IsCoalesced : List Block → Type 0
IsCoalesced = CoalescedAfter false

pub coalesce_from-IsCoalesced :
    (a e : ℕ) (prev : Bool) (b : Block) (bs : List Block)
    → e < a + u32_mod
    → Tiles a (b ∷ bs) e
    → (prev && b.free) ≡ false
    → CoalescedAfter prev (coalesce_from b bs)
unfolding coalesce_from
coalesce_from-IsCoalesced a e prev b [] h t p = (p, tt)
coalesce_from-IsCoalesced a e prev b (c ∷ bs) h t p = ground (
  arith,
  Tiles-le (a + block_header_size + b.size + block_header_size + c.size) e bs,
  Tiles-start {a = a + block_header_size + b.size + block_header_size + c.size}
      {a' = a + block_header_size + (b.size + (block_header_size + c.size)) % u32_mod} bs e,
  coalesce_from-IsCoalesced a e prev (merge b c) bs,
  coalesce_from-IsCoalesced (a + block_header_size + b.size) e b.free c bs,
)

-- The pass of `my_free` leaves no two free neighbours, whatever the list was.
pub coalesce-IsCoalesced :
    (a e : ℕ) (bs : List Block) → e < a + u32_mod → Tiles a bs e → IsCoalesced (coalesce bs)
unfolding coalesce
coalesce-IsCoalesced a e [] h t = tt
coalesce-IsCoalesced a e (b ∷ bs) h t = coalesce_from-IsCoalesced a e false b bs h t refl

pub split-CoalescedAfter :
    (size : ℕ) (prev : Bool) (b : Block) (bs : List Block)
    → CoalescedAfter prev (b ∷ bs)
    → b.free ≡ true
    → let (c, cs) = split_block size b bs in CoalescedAfter prev (c ∷ cs)
unfolding split_block
split-CoalescedAfter size prev b [] h f = ground arith
split-CoalescedAfter size prev b (c ∷ bs) h f = ground arith

pub CoalescedAfter-append :
    (prev : Bool) (xs ys zs : List Block)
    → ((p : Bool) → CoalescedAfter p ys → CoalescedAfter p zs)
    → CoalescedAfter prev (xs ++ ys)
    → CoalescedAfter prev (xs ++ zs)
CoalescedAfter-append prev [] ys zs k h = k prev h
CoalescedAfter-append prev (x ∷ xs) ys zs k h = (h.0, CoalescedAfter-append x.free xs ys zs k h.1)
