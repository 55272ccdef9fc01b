-- ===== src/Catalog/Dao/Category/Laws.antt =====
-- The pages that the lists of catalog/productdao/postgres.go read.
use wesko_go_backend.Common.{ℕ, ap, ◌∙◌, ◌+◌, ◌-◌, ◌*◌, ◌<◌, ◌≡◌, refl, arith}
use wesko_go_backend.Common.Int.{wrap_int, pos}
use wesko_go_backend.Catalog.Dao.Category.{page_offset}

wrap_int_small : (n : ℕ) → n < 9223372036854775808 → wrap_int n ≡ pos n
unfolding wrap_int
wrap_int_small n h = ground arith

-- The offset of a page whose rows before it fit Go's int.
page_offset_of :
    (page before size : ℕ)
    → page ≡ before + 1
    → before * size < 9223372036854775808
    → page_offset (pos page) (pos size) ≡ pos (before * size)
unfolding page_offset
page_offset_of page before size e h =
    let one : page - 1 ≡ before = omega arith in rw one (wrap_int_small (before * size) h)

succ_mul : (page size : ℕ) → (page + 1) * size ≡ page * size + size
succ_mul page size = omega arith

-- The pages of a list follow each other without a gap or an overlap, as long as their ends fit
-- Go's int: the first begins at the first row, and the next one begins where a page ends.
pub page_offset_next :
    (page size : ℕ)
    → (page + 1) * size < 9223372036854775808
    → (page_offset (pos 1) (pos size) ≡ pos 0)
      × (page_offset (pos (page + 1)) (pos size) ≡ pos (page * size))
      × (page_offset (pos (page + 2)) (pos size) ≡ pos (page * size + size))
page_offset_next page size h =
    let next = succ_mul page size in
    (
      page_offset_of 1 0 size refl (omega arith) ∙ ap pos (omega arith),
      page_offset_of (page + 1) page size refl (omega arith),
      page_offset_of (page + 2) (page + 1) size (omega arith) h ∙ ap pos next,
    )
