-- ===== src/Buddy/Lists.antt =====
-- buddyMemoryManager.c: the free lists.
use g21_tp2_so_1c.Base.{ℕ, ◌+◌, ◌<◌, ◌≡◌, ◌≢◌, length, set, get_or-set_self, arith, length-set}
use g21_tp2_so_1c.Buddy.{Buddy, head, next, prev, add_to_free_list, remove_from_free_list}

-- A block that is put on a free list is its head; taken off again, it leaves the former head in front,
-- with nothing before it.
pub add-remove_from_free_list :
    (block order : ℕ) (b : Buddy)
    → order < length b.free_lists
    → block ≢ 0
    → head b order + 8 ≢ block
    → head b order ≢ block
    → let added = add_to_free_list block order b in
      let removed = remove_from_free_list block order added in
      (head added order ≡ block)
      × (next added block ≡ head b order)
      × (prev added block ≡ 0)
      × (head removed order ≡ head b order)
      × (head b order ≢ 0 → prev removed (head b order) ≡ 0)
unfolding add_to_free_list remove_from_free_list
add-remove_from_free_list block order b h z n m =
    let own = get_or-set_self b.free_lists order block 0 h in
    let back =
      get_or-set_self (set b.free_lists order block) order (head b order) 0
        (omega (arith, length-set b.free_lists order block)) in
    ground (arith, own, back)
