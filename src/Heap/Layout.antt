-- ===== src/Heap/Layout.antt =====
-- memoryManager.c: the blocks tile the heap, and which block the search chooses.
use g21_tp2_so_1c.Base.{
  ℕ, ◌+◌, ◌-◌, ◌≤◌, ◌<◌, ◌%◌, ◌≡◌, refl, ap, subst, true, false, Option, none, some, List, [], ◌∷◌,
  ◌++◌, arith, if◌then◌else◌, Bool-cases, inl, inr,
}
use mathlib.Core.Option
use g21_tp2_so_1c.Heap.{
  Block, block_header_size, fits, split_block, first_fit, u32_mod, merge, coalesce_from, coalesce,
}

-- From address `a` on, each block starts where the one before it ends, and the last ends at `e`.
abbrev pub Tiles : ℕ → List Block → ℕ → Type 0
Tiles a [] e = a ≡ e
Tiles a (b ∷ bs) e = (b.addr ≡ a) × Tiles (a + block_header_size + b.size) bs e

-- The bytes of the blocks in use, headers included.
abbrev pub used : List Block → ℕ
used [] = 0
used (b ∷ bs) = (if b.free then 0 else b.size + block_header_size) + used bs

-- The address just past a block.
abbrev pub end : ℕ → List Block → ℕ
end a [] = a
end a (b ∷ bs) = end (a + block_header_size + b.size) bs

pub Tiles-start : {a a' : ℕ} (bs : List Block) (e : ℕ) → a ≡ a' → Tiles a bs e → Tiles a' bs e
Tiles-start bs e p t = subst (λ x. Tiles x bs e) p t

pub Tiles-append :
    (a e : ℕ) (xs ys : List Block)
    → Tiles a (xs ++ ys) e
    → Tiles a xs (end a xs) × Tiles (end a xs) ys e
Tiles-append a e [] ys t = (refl, t)
Tiles-append a e (x ∷ xs) ys t =
    let r = Tiles-append (a + block_header_size + x.size) e xs ys t.1 in ((t.0, r.0), r.1)

pub append-Tiles :
    (a m e : ℕ) (xs ys : List Block) → Tiles a xs m → Tiles m ys e → Tiles a (xs ++ ys) e
append-Tiles a m e [] ys t u = Tiles-start ys e (omega arith) u
append-Tiles a m e (x ∷ xs) ys t u =
    (t.0, append-Tiles (a + block_header_size + x.size) m e xs ys t.1 u)

pub used-append : (xs ys : List Block) → used (xs ++ ys) ≡ used xs + used ys
used-append [] ys = omega arith
used-append (x ∷ xs) ys = omega (arith, used-append xs ys)

-- The blocks tile at least their headers and data, so what is in use fits the span.
pub used-le : (a e : ℕ) (bs : List Block) → Tiles a bs e → a + used bs ≤ e
used-le a e [] t = omega arith
used-le a e (b ∷ bs) t = ground (arith, used-le (a + block_header_size + b.size) e bs t.1)

abbrev pub AllUnfit : ℕ → List Block → Type 0
AllUnfit size [] = Unit {0}
AllUnfit size (b ∷ bs) = (fits size b ≡ false) × AllUnfit size bs

-- The search passed over `before`, where nothing fits, and took `chosen`.
pub record FirstFit (size : ℕ) (bs : List Block) (c : Block) (cs : List Block) : Type 0 where
  pub before : List Block
  pub chosen : Block
  pub after : List Block
  pub split : bs ≡ before ++ (chosen ∷ after)
  pub unfit : AllUnfit size before
  pub fit : fits size chosen ≡ true
  pub block : c ≡ (split_block size chosen after).0
  pub left : cs ≡ before ++ (c ∷ (split_block size chosen after).1)

abbrev pub Found : ℕ → List Block → Option (Block × List Block) → Type 0
Found size bs none = AllUnfit size bs
Found size bs (some (c, cs)) = FirstFit size bs c cs

-- A block that does not fit is passed over, whatever the search in the rest finds.
skip-Found :
    (size : ℕ) (b : Block) (bs : List Block) (r : Option (Block × List Block))
    → fits size b ≡ false
    → Found size bs r
    → Found size (b ∷ bs) (Option.map (λ (r : Block × List Block). (r.0, b ∷ r.1)) r)
skip-Found size b bs none n f = (n, f)
skip-Found size b bs (some (c, cs)) n f = record {
  before = b ∷ f.before;
  chosen = f.chosen;
  after = f.after;
  split = ap (λ (l : List Block). b ∷ l) f.split;
  unfit = (n, f.unfit);
  fit = f.fit;
  block = f.block;
  left = ap (λ (l : List Block). b ∷ l) f.left;
}

pub first_fit-Found : (size : ℕ) (bs : List Block) → Found size bs (first_fit size bs)
unfolding first_fit
first_fit-Found size [] = tt
first_fit-Found size (b ∷ bs) = elim (Bool-cases (fits size b)) [
  | inl y ↦ rw y (record {
    before = [];
    chosen = b;
    after = bs;
    split = refl;
    unfit = tt;
    fit = y;
    block = refl;
    left = refl;
  })
  | inr n ↦ rw n (skip-Found size b bs (first_fit size bs) n (first_fit-Found size bs))
]

-- Splitting a block leaves the span that it covers as it was.
pub split-Tiles :
    (size a e : ℕ) (b : Block) (bs : List Block)
    → size ≤ b.size
    → Tiles a (b ∷ bs) e
    → let (c, cs) = split_block size b bs in Tiles a (c ∷ cs) e
unfolding split_block
split-Tiles size a e b bs h t = ground (
  arith,
  Tiles-start {a = a + block_header_size + b.size}
      {a' = a + block_header_size + size + block_header_size + (b.size - size - block_header_size)}
      bs e,
)

pub Tiles-le : (a e : ℕ) (bs : List Block) → Tiles a bs e → a ≤ e
Tiles-le a e [] t = omega arith
Tiles-le a e (b ∷ bs) t = omega (arith, Tiles-le (a + block_header_size + b.size) e bs t.1)

-- Coalescing keeps the tiling of a span that 32 bits can count.
pub coalesce_from-Tiles :
    (a e : ℕ) (b : Block) (bs : List Block)
    → e < a + u32_mod
    → Tiles a (b ∷ bs) e
    → Tiles a (coalesce_from b bs) e
unfolding coalesce_from
coalesce_from-Tiles a e b [] h t = t
coalesce_from-Tiles a e b (c ∷ bs) h t = ground (
  arith,
  Tiles-le (a + block_header_size + b.size + block_header_size + c.size) e bs,
  Tiles-start {a = a + block_header_size + b.size + block_header_size + c.size}
      {a' = a + block_header_size + (b.size + (block_header_size + c.size)) % u32_mod} bs e,
  coalesce_from-Tiles a e (merge b c) bs,
  coalesce_from-Tiles (a + block_header_size + b.size) e c bs,
)

pub used-coalesce_from :
    (a e : ℕ) (b : Block) (bs : List Block)
    → e < a + u32_mod
    → Tiles a (b ∷ bs) e
    → used (coalesce_from b bs) ≡ used (b ∷ bs)
unfolding coalesce_from
used-coalesce_from a e b [] h t = refl
used-coalesce_from a e b (c ∷ bs) h t = ground (
  arith,
  Tiles-le (a + block_header_size + b.size + block_header_size + c.size) e bs,
  Tiles-start {a = a + block_header_size + b.size + block_header_size + c.size}
      {a' = a + block_header_size + (b.size + (block_header_size + c.size)) % u32_mod} bs e,
  used-coalesce_from a e (merge b c) bs,
  used-coalesce_from (a + block_header_size + b.size) e c bs,
)

pub coalesce-Tiles :
    (a e : ℕ) (bs : List Block) → e < a + u32_mod → Tiles a bs e → Tiles a (coalesce bs) e
unfolding coalesce
coalesce-Tiles a e [] h t = t
coalesce-Tiles a e (b ∷ bs) h t = coalesce_from-Tiles a e b bs h t

pub used-coalesce :
    (a e : ℕ) (bs : List Block) → e < a + u32_mod → Tiles a bs e → used (coalesce bs) ≡ used bs
unfolding coalesce
used-coalesce a e [] h t = refl
used-coalesce a e (b ∷ bs) h t = used-coalesce_from a e b bs h t
