-- ===== src/Tests/Database.antt =====
-- A small database: rows of categories and of products in lists, with a counter for the keys.
use wesko_go_backend.Common.{
  ℕ, suc, ◌+◌, inl, inr, Bool, true, false, List, [], ◌∷◌, ◌==◌, arith, if◌then◌else◌,
}
use wesko_go_backend.Common.Int.{pos}
use wesko_go_backend.Common.Text.{codes}
use wesko_go_backend.Common.Exec.{Result, ok, err, Call-cases}
use wesko_go_backend.Common.Gorm.{DbError}
use wesko_go_backend.Catalog.Ports.{Call}
use wesko_go_backend.Catalog.Dao.Rows.{CategoryModel, ProductModel}
use wesko_go_backend.Catalog.Dao.Tables.{Table, Db, Commits, CategoryCondition, ProductCondition}

pub record Rows : Type 0 where
  pub categories : List CategoryModel
  pub products : List ProductModel
  pub last : ℕ

abbrev pub not_found : DbError
not_found = record { record_not_found = true; duplicated_key = false; message = []; code = 1 }

abbrev pub taken : DbError
taken = record {
  record_not_found = false;
  duplicated_key = true;
  message = codes "catalog_skus";
  code = 2;
}

abbrev pub find_category : ℕ → List CategoryModel → Result DbError CategoryModel
find_category id [] = err not_found
find_category id (c ∷ cs) = let rest = find_category id cs in if c.id == id then ok c else rest

abbrev pub find_product : ℕ → List ProductModel → Result DbError ProductModel
find_product id [] = err not_found
find_product id (c ∷ cs) = let rest = find_product id cs in if c.id == id then ok c else rest

-- The rows but those with the key, and how many had it.
abbrev pub without : ℕ → List CategoryModel → List CategoryModel
without id [] = []
without id (c ∷ cs) = let rest = without id cs in if c.id == id then rest else c ∷ rest

abbrev pub hits : ℕ → List CategoryModel → ℕ
hits id [] = 0
hits id (c ∷ cs) = let rest = hits id cs in if c.id == id then suc rest else rest

abbrev pub category_table : Table Rows CategoryModel CategoryCondition
category_table = record {
  create = λ m w.
      let r = record m { id = w.last + 1 } in
      (ok r, record w { categories = r ∷ w.categories; last = w.last + 1 });
  create_all = λ ms w. (ok tt, w);
  first = λ preloads id w. (find_category id w.categories, w);
  updates = λ id f w. (ok 0, w);
  delete = λ id w. (ok (hits id w.categories), record w { categories = without id w.categories });
  delete_where = λ c w. (ok 0, w);
  count = λ q w. (ok (pos 0), w);
  find = λ q w. (ok w.categories, w);
}

abbrev pub product_table : Table Rows ProductModel ProductCondition
product_table = record {
  create = λ m w.
      let r = record m { id = w.last + 1 } in
      (ok r, record w { products = r ∷ w.products; last = w.last + 1 });
  create_all = λ ms w. (ok tt, w);
  first = λ preloads id w. (find_product id w.products, w);
  updates = λ id f w. (ok 1, w);
  delete = λ id w. (ok 1, w);
  delete_where = λ c w. (ok 0, w);
  count = λ q w. (ok (pos 0), w);
  find = λ q w. (ok w.products, w);
}

-- A table whose rows nobody reads, and where `full` says that its rows are taken.
abbrev pub part_table : {M W : Type 0} → Bool → Table Rows M W
part_table full = record {
  create = λ m w. (ok m, w);
  create_all = λ ms w. (if full then err taken else ok tt, w);
  first = λ preloads id w. (err not_found, w);
  updates = λ id f w. (ok 0, w);
  delete = λ id w. (ok 0, w);
  delete_where = λ c w. (ok 0, w);
  count = λ q w. (ok (pos 0), w);
  find = λ q w. (ok [], w);
}

abbrev pub in_transaction : Call Rows ℕ → Call Rows ℕ
in_transaction m w = let (r, t) = m w in elim r [ ok a ↦ (ok a, t) | err e ↦ (err e, w) ]

abbrev pub database : Bool → Db Rows
database full = record {
  categories = category_table;
  products = product_table;
  images = part_table false;
  skus = part_table full;
  attributes = part_table false;
  jobs = part_table false;
  transaction = in_transaction;
  now = λ w. (5, w);
  lower = λ c. c;
}

abbrev pub no_rows : Rows
no_rows = record { categories = []; products = []; last = 0 }

pub database-Commits : (full : Bool) → Commits (database full)
database-Commits full = record {
  rolls_back = λ m w t e h. elim (Call-cases (m w)) [
    | inl (a, u, q) ↦ absurd (ground arith)
    | inr (d, u, q) ↦ ground arith
  ];
  commits = λ m w t a h. elim (Call-cases (m w)) [
    | inl (b, u, q) ↦ ground arith
    | inr (d, u, q) ↦ absurd (ground arith)
  ];
}
