-- ===== src/Text/Memory/Copy.antt =====
-- lib.c: `memcpy` on ranges that do not overlap.
use g21_tp2_so_1c.Base.{
  subst, ℕ, zero, suc, ◌+◌, ◌*◌, ◌/◌, ◌%◌, ◌≤◌, ◌<◌, ◌≡◌, ◌≢◌, refl, ap, sym, ◌∙◌, ◌&&◌, ◌==◌,
  arith, dec_lt, by_bool,
}
use mathlib.Core.Path.{subst₂}
use g21_tp2_so_1c.Text.Memory.{memcpy, copy_bytes, copy_words, copy_word, poke}

poke_hit : (a x : ℕ) (m : ℕ → ℕ) (b : ℕ) → a ≡ b → poke a x m b ≡ x
poke_hit a x m b e = ground arith

poke_miss : (a x : ℕ) (m : ℕ → ℕ) (b : ℕ) → a ≢ b → poke a x m b ≡ m b
poke_miss a x m b e = ground arith

-- `f` holds the bytes of `m` from `src` on at `dst`, from offset `i` to `e`, and else those of `m`.
pub record Copied (dst src i e : ℕ) (m f : ℕ → ℕ) : Type 0 where
  pub inside : (k : ℕ) → i ≤ k → k < e → f (dst + k) ≡ m (src + k)
  pub outside : (a : ℕ) → ((k : ℕ) → i ≤ k → k < e → a ≢ dst + k) → f a ≡ m a

abbrev pub Apart : ℕ → ℕ → ℕ → Type 0
Apart dst src e = (j k : ℕ) → j < e → k < e → dst + j ≢ src + k

-- Two copies, one behind the other.
Copied-join :
    (dst src i mid e : ℕ) (m f g : ℕ → ℕ)
    → i ≤ mid
    → mid ≤ e
    → Apart dst src e
    → Copied dst src i mid m f
    → Copied dst src mid e f g
    → Copied dst src i e m g
Copied-join dst src i mid e m f g h1 h2 ap c d = record {
  inside = λ k a b. elim (dec_lt k mid) [
    | yes l ↦ d.outside (dst + k) (λ j p q. omega arith) ∙ c.inside k a l
    | no n ↦
        d.inside k (omega arith) b ∙ c.outside (src + k) (λ j p q z. ap j k (omega arith) b (sym z))
  ];
  outside = λ a n.
      d.outside a (λ k p q. n k (omega arith) q) ∙ c.outside a (λ k p q. n k p (omega arith));
}

byte-Copied :
    (dst src i : ℕ) (m : ℕ → ℕ) → Copied dst src i (i + 1) m (poke (dst + i) (m (src + i)) m)
byte-Copied dst src i m = record {
  inside = λ k a b.
      let e : i ≡ k = omega arith in
      poke_hit (dst + i) (m (src + i)) m (dst + k) (omega arith) ∙ ap (λ j. m (src + j)) e;
  outside =
      λ a n. poke_miss (dst + i) (m (src + i)) m a (λ e. n i (omega arith) (omega arith) (sym e));
}

copy_bytes-Copied :
    (n dst src i : ℕ) (m : ℕ → ℕ)
    → Apart dst src (i + n)
    → Copied dst src i (i + n) m (copy_bytes dst src i n m)
unfolding copy_bytes
copy_bytes-Copied zero dst src i m h = record {
  inside = λ k a b. absurd (omega arith);
  outside = λ a n. refl;
}
copy_bytes-Copied (suc n) dst src i m h =
    Copied-join dst src i (i + 1) (i + suc n) m _ _ (omega arith) (omega arith) h
      (byte-Copied dst src i m)
      (subst
        (λ e.
          Copied dst src (i + 1) e (poke (dst + i) (m (src + i)) m)
            (copy_bytes dst src (i + 1) n (poke (dst + i) (m (src + i)) m)))
        (let e : i + 1 + n ≡ i + suc n = omega arith in e)
        (copy_bytes-Copied n dst src (i + 1) (poke (dst + i) (m (src + i)) m)
          (λ j k a b. h j k (omega arith) (omega arith))))

word-Copied :
    (dst src i : ℕ) (m : ℕ → ℕ)
    → Copied dst src (4 * i) (4 * i + 4) m (copy_word (dst + 4 * i) (src + 4 * i) m)
word-Copied dst src i m = record {
  inside = λ k a b.
      by_bool (λ y. y ≡ m (src + k)) (dst + 4 * i + 3 == dst + k) _ _ (λ e. ap m (ground arith))
        (λ n3.
          by_bool (λ y. y ≡ m (src + k)) (dst + 4 * i + 2 == dst + k) _ _ (λ e. ap m (ground arith))
            (λ n2.
              by_bool (λ y. y ≡ m (src + k)) (dst + 4 * i + 1 == dst + k) _ _
                (λ e. ap m (ground arith))
                (λ n1.
                  by_bool (λ y. y ≡ m (src + k)) (dst + 4 * i == dst + k) _ _
                    (λ e. ap m (ground arith)) (λ n0. absurd (ground arith)))));
  outside = λ a n.
      let n0 = n (4 * i) (omega arith) (omega arith) in
      let n1 = n (4 * i + 1) (omega arith) (omega arith) in
      let n2 = n (4 * i + 2) (omega arith) (omega arith) in
      let n3 = n (4 * i + 3) (omega arith) (omega arith) in ground arith;
}

copy_words-Copied :
    (n dst src i : ℕ) (m : ℕ → ℕ)
    → Apart dst src (4 * i + 4 * n)
    → Copied dst src (4 * i) (4 * i + 4 * n) m (copy_words dst src i n m)
unfolding copy_words
copy_words-Copied zero dst src i m h = record {
  inside = λ k a b. absurd (omega arith);
  outside = λ a n. refl;
}
copy_words-Copied (suc n) dst src i m h =
    let moved = copy_word (dst + 4 * i) (src + 4 * i) m in
    Copied-join dst src (4 * i) (4 * i + 4) (4 * i + 4 * suc n) m _ _ (omega arith) (omega arith) h
      (word-Copied dst src i m)
      (subst₂ (λ a e. Copied dst src a e moved (copy_words dst src (i + 1) n moved))
        (let e : 4 * (i + 1) ≡ 4 * i + 4 = omega arith in e)
        (let e : 4 * (i + 1) + 4 * n ≡ 4 * i + 4 * suc n = omega arith in e)
        (copy_words-Copied n dst src (i + 1) moved (λ j k a b. h j k (omega arith) (omega arith))))

-- Where no byte of the destination is one of the source, `memcpy` puts the source's bytes there and
-- changes no other, whether it goes word by word or byte by byte.
pub memcpy-Copied :
    (dst src n : ℕ) (m : ℕ → ℕ) → Apart dst src n → Copied dst src 0 n m (memcpy dst src n m)
unfolding memcpy
memcpy-Copied dst src n m h =
    by_bool (λ f. Copied dst src 0 n m f) (dst % 4 == 0 && src % 4 == 0 && n % 4 == 0) _ _
      (λ e.
        let whole : 4 * 0 + 4 * (n / 4) ≡ n = ground arith in
        subst (λ z. Copied dst src 0 z m (copy_words dst src 0 (n / 4) m)) whole
          (copy_words-Copied (n / 4) dst src 0 m (λ j k a b. h j k (omega arith) (omega arith))))
      (λ _.
        let whole : 0 + n ≡ n = omega arith in
        subst (λ z. Copied dst src 0 z m (copy_bytes dst src 0 n m)) whole
          (copy_bytes-Copied n dst src 0 m (λ j k a b. h j k (omega arith) (omega arith))))
