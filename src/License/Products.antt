-- ===== src/License/Products.antt =====
-- Product create, update and delete.
use cyberx_event_mgmt.Base.{
  ℕ, suc, String, Option, none, some, Bool, true, false, not, ◌&&◌, [], ◌∷◌, ◌++◌, str_eq, ◌==◌,
  if◌then◌else◌, is_some, find, update, delete, Result, ok, raised, integrity_error,
}
use cyberx_event_mgmt.License.Data.{Product, Db, is_product, get_product}

pub record NewProduct : Type 0 where
  pub name : String
  pub license_blob : String
  pub description : Option String
  pub max_concurrent : ℕ
  pub slot_ttl : ℕ
  pub token_ttl : ℕ
  pub download_filename : Option String

-- The arguments that `create_product` takes by default.
unfoldable pub default_product : String → String → NewProduct
default_product name license_blob = record {
  name = name;
  license_blob = license_blob;
  description = none;
  max_concurrent = 2;
  slot_ttl = 7200;
  token_ttl = 7200;
  download_filename = none;
}

-- The unique constraint on `name` makes the commit fail.
unfoldable pub create_product : Db → NewProduct → Db × Result Product
create_product db new =
    if is_some (find (λ p. str_eq p.name new.name) db.products)
    then (db, raised integrity_error)
    else (
      record db {
        products = db.products ++ product ∷ [];
        next_product_id = suc db.next_product_id;
      },
      ok product,
    )
  where
    product : Product
    product = record {
      id = db.next_product_id;
      name = new.name;
      description = new.description;
      license_blob = new.license_blob;
      max_concurrent = new.max_concurrent;
      slot_ttl = new.slot_ttl;
      token_ttl = new.token_ttl;
      is_active = true;
      download_filename = new.download_filename;
    }

-- The keyword arguments of `update_product`; `none` is a key that is missing or null.
pub record ProductPatch : Type 0 where
  pub name : Option String
  pub description : Option String
  pub license_blob : Option String
  pub max_concurrent : Option ℕ
  pub slot_ttl : Option ℕ
  pub token_ttl : Option ℕ
  pub is_active : Option Bool
  pub download_filename : Option String

-- `setattr` for a value that is not None.
abbrev pub or_old : {A : Type 0} → Option A → A → A
or_old none a = a
or_old (some b) a = b

abbrev pub or_old_opt : {A : Type 0} → Option A → Option A → Option A
or_old_opt none a = a
or_old_opt (some b) a = some b

unfoldable pub patch_product : ProductPatch → Product → Product
patch_product k p = record {
  id = p.id;
  name = or_old k.name p.name;
  description = or_old_opt k.description p.description;
  license_blob = or_old k.license_blob p.license_blob;
  max_concurrent = or_old k.max_concurrent p.max_concurrent;
  slot_ttl = or_old k.slot_ttl p.slot_ttl;
  token_ttl = or_old k.token_ttl p.token_ttl;
  is_active = or_old k.is_active p.is_active;
  download_filename = or_old_opt k.download_filename p.download_filename;
}

-- Another product has the name that the patch gives.
abbrev name_taken : Db → ℕ → Option String → Bool
name_taken db product_id none = false
name_taken db product_id (some name) =
    is_some (find (λ p. str_eq p.name name && not (p.id == product_id)) db.products)

apply_patch : Db → ℕ → ProductPatch → Option Product → Db × Result (Option Product)
unfolding patch_product
apply_patch db product_id k none = (db, ok none)
apply_patch db product_id k (some p) =
    if name_taken db product_id k.name then (db, raised integrity_error) else (
      record db { products = update (is_product product_id) (patch_product k) db.products },
      ok (some (patch_product k p)),
    )

unfoldable pub update_product : Db → ℕ → ProductPatch → Db × Result (Option Product)
unfolding apply_patch
update_product db product_id k = apply_patch db product_id k (get_product db product_id)

-- The relationships cascade, so the product's tokens and slots go with it.
remove_product : Db → ℕ → Option Product → Db × Bool
remove_product db product_id none = (db, false)
remove_product db product_id (some p) = (
  record db {
    products = delete (is_product product_id) db.products;
    tokens = delete (λ t. t.product_id == product_id) db.tokens;
    slots = delete (λ s. s.product_id == product_id) db.slots;
  },
  true,
)

unfoldable pub delete_product : Db → ℕ → Db × Bool
unfolding remove_product
delete_product db product_id = remove_product db product_id (get_product db product_id)
