-- ===== src/Heap/Valid.antt =====
-- memoryManager.c: the invariant of the heap.
use g21_tp2_so_1c.Base.{
  ℕ, ◌+◌, ◌≤◌, ◌<◌, ◌≡◌, subst, true, Option, none, some, List, ◌∷◌, arith, Option-cases, inl, inr,
}
use g21_tp2_so_1c.Heap.{
  Block, Heap, block_header_size, u32_mod, align4, split_block, first_fit, my_mem_init, my_malloc,
  granted,
}
use g21_tp2_so_1c.Heap.Layout.{
  Tiles, used, end, Tiles-append, append-Tiles, used-append, used-le, AllUnfit, FirstFit, Found,
  first_fit-Found, split-Tiles,
}

pub record IsValid (h : Heap) : Type 0 where
  pub tiles : Tiles h.heap_start h.free_list (h.heap_start + h.mem_info.total_mem)
  pub counted : h.mem_info.used_mem ≡ used h.free_list
  pub small : h.mem_info.total_mem < u32_mod

-- A heap that has room for one header starts valid.
pub my_mem_init-IsValid :
    (h : Heap) (start size : ℕ)
    → block_header_size ≤ size
    → size < u32_mod
    → IsValid (my_mem_init h start size)
unfolding my_mem_init
my_mem_init-IsValid h start size lo hi = omega arith

used-split :
    (size : ℕ) (b : Block) (bs : List Block)
    → b.free ≡ true
    → let (c, cs) = split_block size b bs in
      used (c ∷ cs) ≡ used (b ∷ bs) + (c.size + block_header_size)
unfolding split_block
used-split size b bs f = ground arith

pub FirstFit-Tiles :
    (size a e : ℕ) (bs : List Block) (c : Block) (cs : List Block)
    → FirstFit size bs c cs
    → Tiles a bs e
    → Tiles a cs e
FirstFit-Tiles size a e bs c cs f t =
    let u = Tiles-append a e f.before (f.chosen ∷ f.after) (subst (λ l. Tiles a l e) f.split t) in
    let v =
      split-Tiles size (end a f.before) e f.chosen f.after (let q = f.fit in ground arith) u.1 in
    rw (f.left, f.block) (append-Tiles a (end a f.before) e f.before _ u.0 v)

FirstFit-used :
    (size : ℕ) (bs : List Block) (c : Block) (cs : List Block)
    → FirstFit size bs c cs
    → used cs ≡ used bs + (c.size + block_header_size)
FirstFit-used size bs c cs f =
    rw (f.left, f.split, f.block)
      (omega (
        arith,
        used-append f.before (f.chosen ∷ f.after),
        used-append f.before
            ((split_block size f.chosen f.after).0 ∷ (split_block size f.chosen f.after).1),
        used-split size f.chosen f.after (let q = f.fit in ground arith),
      ))

-- A property of what `my_malloc` leaves, by the outcome of the search.
pub malloc_cases {ℓ} :
    (P : Option ℕ × Heap → Type ℓ) (h : Heap) (n : ℕ)
    → (AllUnfit (align4 n) h.free_list → P (none, h))
    → ((b : Block) (bs : List Block)
        → FirstFit (align4 n) h.free_list b bs
        → P (some (b.addr + block_header_size), granted h b bs))
    → P (my_malloc h n)
unfolding my_malloc
malloc_cases P h n null found = elim (Option-cases (first_fit (align4 n) h.free_list)) [
  | inl e ↦
      rw (e, my_malloc)
        (null (subst (Found (align4 n) h.free_list) e (first_fit-Found (align4 n) h.free_list)))
  | inr (r, e) ↦
      rw (e, my_malloc)
        (found r.0 r.1
          (subst (Found (align4 n) h.free_list) e (first_fit-Found (align4 n) h.free_list)))
]

pub granted-IsValid :
    (h : Heap) (size : ℕ) (b : Block) (bs : List Block)
    → IsValid h
    → FirstFit size h.free_list b bs
    → IsValid (granted h b bs)
granted-IsValid h size b bs v f =
    let t = FirstFit-Tiles size h.heap_start _ h.free_list b bs f v.tiles in
    record {
      tiles = t;
      counted = omega (
        arith,
        FirstFit-used size h.free_list b bs f,
        used-le h.heap_start _ bs t,
        v.counted,
        v.small,
      );
      small = v.small;
    }

-- The list that `my_malloc` leaves still tiles the heap, and `used_mem` still counts it.
pub my_malloc-IsValid : (h : Heap) (n : ℕ) → IsValid h → IsValid (my_malloc h n).1
my_malloc-IsValid h n v =
    malloc_cases (λ r. IsValid r.1) h n (λ _. v) (λ b bs f. granted-IsValid h (align4 n) b bs v f)
