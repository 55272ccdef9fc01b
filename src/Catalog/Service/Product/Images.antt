-- ===== src/Catalog/Service/Product/Images.antt =====
-- What mapImageRequests makes of a list of images.
use wesko_go_backend.Common.{
  ℕ, zero, suc, ◌+◌, ◌≡◌, refl, ap, ◌∙◌, Option, none, some, List, [], ◌∷◌, arith, All,
  if◌then◌else◌,
}
use wesko_go_backend.Catalog.Models.{ProductImage}
use wesko_go_backend.Catalog.Requests.{CreateProductImageRequest}
use wesko_go_backend.Catalog.Service.Base.{or_default}
use wesko_go_backend.Catalog.Service.Product.{map_image, map_images_from, map_image_requests}

-- The element at a position.
abbrev pub get_elem? {ℓ} : {A : Type ℓ} → List A → ℕ → Option A
get_elem? [] i = none
get_elem? (x ∷ xs) zero = some x
get_elem? (x ∷ xs) (suc i) = get_elem? xs i

-- The images that are marked as primary.
abbrev pub primaries : List ProductImage → ℕ
primaries [] = 0
primaries (image ∷ images) = (if image.is_primary then 1 else 0) + primaries images

-- What becomes of the request at a position.
abbrev pub image_at : ℕ → ℕ → Option CreateProductImageRequest → Option ProductImage
image_at product_id i none = none
image_at product_id i (some image) = some (map_image product_id i image)

map_images_from-get_elem? :
    (product_id k : ℕ) (requests : List CreateProductImageRequest) (i : ℕ)
    → get_elem? (map_images_from product_id k requests) i
      ≡ image_at product_id (k + i) (get_elem? requests i)
unfolding map_images_from
map_images_from-get_elem? product_id k [] i = refl
map_images_from-get_elem? product_id k (image ∷ requests) zero =
    ap (λ j. image_at product_id j (some image)) (omega arith)
map_images_from-get_elem? product_id k (image ∷ requests) (suc i) =
    map_images_from-get_elem? product_id (suc k) requests i
    ∙ ap (λ j. image_at product_id j (get_elem? requests i)) (omega arith)

-- The image at a position is made of the request at that position and of the position, which is
-- its sort order unless the request gives one.
pub map_image_requests-get_elem? :
    (product_id : ℕ) (requests : List CreateProductImageRequest) (i : ℕ)
    → get_elem? (map_image_requests requests product_id) i
      ≡ image_at product_id i (get_elem? requests i)
unfolding map_image_requests
map_image_requests-get_elem? product_id requests i =
    map_images_from-get_elem? product_id 0 requests i
    ∙ ap (λ j. image_at product_id j (get_elem? requests i)) (omega arith)

unmarked_from :
    (product_id k : ℕ) (requests : List CreateProductImageRequest)
    → All (λ image. image.is_primary ≡ none) requests
    → primaries (map_images_from product_id (suc k) requests) ≡ 0
unfolding map_images_from map_image or_default
unmarked_from product_id k [] h = refl
unmarked_from product_id k (image ∷ requests) (p, h) =
    rw p (ground (arith, unmarked_from product_id (suc k) requests h))

-- If no request of a list that is not empty marks an image, exactly one image is primary.
pub map_image_requests-primary :
    (product_id : ℕ) (image : CreateProductImageRequest) (requests : List CreateProductImageRequest)
    → All (λ image. image.is_primary ≡ none) (image ∷ requests)
    → primaries (map_image_requests (image ∷ requests) product_id) ≡ 1
unfolding map_image_requests map_images_from map_image or_default
map_image_requests-primary product_id image requests (p, h) =
    rw p (ground (arith, unmarked_from product_id 0 requests h))
