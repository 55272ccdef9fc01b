-- ===== src/Catalog/Dao/Tables.antt =====
-- What catalog/productdao/postgres.go takes of gorm, as named calls over a state `S` of the
-- database. The conditions of a query are the ones that the file writes.
use wesko_go_backend.Common.{
  ℕ, ◌≡◌, Bool, Option, none, some, List, [], ◌∷◌, ◌++◌, is_empty, if◌then◌else◌,
}
use wesko_go_backend.Common.Int.{ℤ}
use wesko_go_backend.Common.Text.{Text, codes}
use wesko_go_backend.Common.Exec.{ok, err}
use wesko_go_backend.Common.Gorm.{DbError, DbCall}
use wesko_go_backend.Catalog.Errors.{Error, other}
use wesko_go_backend.Catalog.Models.{Time}
use wesko_go_backend.Catalog.Ports.{Call}
use wesko_go_backend.Catalog.Dao.{map_db_error}
use wesko_go_backend.Catalog.Dao.PartRows.{
  ProductImageModel, ProductSkuModel, ProductAttributeModel,
}
use wesko_go_backend.Catalog.Dao.Rows.{CategoryModel, ProductModel, BulkUploadJobModel}

-- The error as it is.
abbrev pub raw : DbError → Error
raw e = other e.code

-- A query over conditions `W`, as it is built up.
pub record Query (W : Type 0) : Type 0 where
  pub joins : List Text
  pub conditions : List W
  pub distinct : Option Text
  pub preloads : List (Text × Text)
  pub order : Text
  pub offset : Option ℤ
  pub limit : Option ℤ

abbrev pub new_query : {W : Type 0} → Query W
new_query = record {
  joins = [];
  conditions = [];
  distinct = none;
  preloads = [];
  order = [];
  offset = none;
  limit = none;
}

-- query.Where
abbrev pub where_ : {W : Type 0} → W → Query W → Query W
where_ c q = record q { conditions = q.conditions ++ (c ∷ []) }

-- `if p != nil { query = query.Where(…, *p) }`
abbrev pub where_some : {A W : Type 0} → (A → W) → Option A → Query W → Query W
where_some c none q = q
where_some c (some a) q = where_ (c a) q

-- The two Where of a text that may be empty: itself, and as a pattern of a search.
abbrev pub where_given : {W : Type 0} → (Text → W) → Text → Query W → Query W
where_given c s q = if is_empty s then q else where_ (c s) q

abbrev pub where_search : {W : Type 0} → (Text → W) → Text → Query W → Query W
where_search c s q = if is_empty s then q else where_ (c (codes "%" ++ s ++ codes "%")) q

-- The calls on one table. `updates id f` is Where("id = ?", id).Updates, where `f` sets the columns
-- of the map in a row, and it and `delete` answer RowsAffected.
pub record Table (S M W : Type 0) : Type 0 where
  pub create : M → DbCall S M
  pub create_all : List M → DbCall S Unit
  pub first : List (Text × Text) → ℕ → DbCall S M
  pub updates : ℕ → (M → M) → DbCall S ℕ
  pub delete : ℕ → DbCall S ℕ
  pub delete_where : W → DbCall S ℕ
  pub count : Query W → DbCall S ℤ
  pub find : Query W → DbCall S (List M)

pub data CategoryCondition : Type 0 where
  parent_id_is : ℕ → CategoryCondition
  is_active_is : Bool → CategoryCondition
  name_or_slug_like : Text → CategoryCondition

pub data ProductCondition : Type 0 where
  category_id_is : ℕ → ProductCondition
  status_is : Text → ProductCondition
  name_or_slug_like : Text → ProductCondition
  size_is : Text → ProductCondition
  color_is : Text → ProductCondition
  price_at_least : ℤ → ProductCondition
  price_at_most : ℤ → ProductCondition

-- The conditions on images, units and attributes.
pub data PartCondition : Type 0 where
  product_id_is : ℕ → PartCondition
  active_of_product : ℕ → Bool → PartCondition

-- A database: `now` is time.Now, `transaction` runs its argument in a transaction and `lower` is
-- unicode.ToLower off ASCII.
pub record Db (S : Type 0) : Type 0 where
  pub categories : Table S CategoryModel CategoryCondition
  pub products : Table S ProductModel ProductCondition
  pub images : Table S ProductImageModel PartCondition
  pub skus : Table S ProductSkuModel PartCondition
  pub attributes : Table S ProductAttributeModel PartCondition
  pub jobs : Table S BulkUploadJobModel PartCondition
  pub transaction : Call S ℕ → Call S ℕ
  pub now : S → Time × S
  pub lower : ℕ → ℕ

-- time.Now().UTC() as a step of a block: it cannot fail.
abbrev pub read_clock : {S : Type 0} → Db S → Call S Time
read_clock db w = let (t, w') = db.now w in (ok t, w')

-- `mapDBError(err)`
abbrev pub mapped : {S : Type 0} → Db S → DbError → Error
mapped db e = map_db_error db.lower e.duplicated_key e.message (raw e)

-- What gorm documents of a transaction: an error of its function rolls it back, and what a
-- committed one did is what its function did.
pub record Commits {S : Type 0} (db : Db S) : Type 0 where
  pub rolls_back : (m : Call S ℕ) (w t : S) (e : Error) → db.transaction m w ≡ (err e, t) → t ≡ w
  pub commits : (m : Call S ℕ) (w t : S) (a : ℕ) → db.transaction m w ≡ (ok a, t) → m w ≡ (ok a, t)
