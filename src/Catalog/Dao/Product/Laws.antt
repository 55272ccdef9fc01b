-- ===== src/Catalog/Dao/Product/Laws.antt =====
-- Products are written whole or not at all.
use wesko_go_backend.Common.{◌≡◌, ◌⊎◌, inl, inr, arith}
use wesko_go_backend.Common.Exec.{Result, ok, err, Call-cases}
use wesko_go_backend.Catalog.Errors.{Error}
use wesko_go_backend.Catalog.Models.{Product}
use wesko_go_backend.Catalog.Dao.Tables.{Db, Commits}
use wesko_go_backend.Catalog.Dao.Product.{
  insert_product, rewrite_product, get_product_by_id, create_product, update_product,
}

-- A call that answers `c` from `w` either fails and leaves the state, or commits `m` and reads.
abbrev pub IsAtomic :
    {S A B : Type 0}
    → S
    → (S → Result Error A × S)
    → (A → S → Result Error B × S)
    → Result Error B × S
    → Type 0
IsAtomic {S} {A} w m read c =
    ((e : Error) × (c ≡ (err e, w))) ⊎ ((a : A) × (t : S) × (m w ≡ (ok a, t)) × (c ≡ read a t))

module _ {S : Type 0} (db : Db S) (law : Commits db) where
  -- A product is created whole or not at all: either the call fails and the database is as it was,
  -- or the product's row and all its parts were written and the call answers what is then read
  -- under the id of the row.
  pub create_product-IsAtomic :
      (p : Product) (w : S)
      → IsAtomic w (insert_product db p) (get_product_by_id db) (create_product db p w)
  unfolding create_product
  create_product-IsAtomic p w = elim (Call-cases (db.transaction (insert_product db p) w)) [
    | inr (e, t, q) ↦ inl (e, ground (arith, law.rolls_back (insert_product db p) w t e q))
    | inl (a, t, q) ↦ inr (a, t, law.commits (insert_product db p) w t a q, ground arith)
  ]

  -- A product is updated whole or not at all: either the call fails and the database is as it was,
  -- or the row was changed, the old parts were deleted and all the new ones written, and the call
  -- answers what is then read of the product.
  pub update_product-IsAtomic :
      (p : Product) (w : S)
      → IsAtomic w (rewrite_product db p) (λ _. get_product_by_id db p.id) (update_product db p w)
  unfolding update_product
  update_product-IsAtomic p w = elim (Call-cases (db.transaction (rewrite_product db p) w)) [
    | inr (e, t, q) ↦ inl (e, ground (arith, law.rolls_back (rewrite_product db p) w t e q))
    | inl (a, t, q) ↦ inr (a, t, law.commits (rewrite_product db p) w t a q, ground arith)
  ]
