-- ===== src/Pager/MetaPage.antt =====
-- The meta page carries the pager's fields from one opening of the database to the next.
use labdb.Prelude.{ℕ, ◌+◌, ◌≤◌, ◌<◌, ◌^◌, ◌≡◌, arith, ◌∙◌, ok, check_that, ==_refl}
use labdb.Common.{load, store, zeroes}
use labdb.Common.Fields.{load-store_apart, load-store_self}
use labdb.Page.{Page, PageType, set_id, set_type}
use labdb.Pager.{Meta, magic, meta_page, meta_of, load_meta}

pub record MetaFits (m : Meta) : Type 0 where
  pub page_count : m.page_count < 2 ^ 32
  pub freelist_head : m.freelist_head < 2 ^ 32
  pub btree_root : m.btree_root < 2 ^ 32
  pub heap_head : m.heap_head < 2 ^ 32
  pub catalog_root : m.catalog_root < 2 ^ 32

module _ (m : Meta) (db_id : ℕ) where
  magic_part : Page
  magic_part = store 8 (set_type (set_id zeroes 0) PageType.meta) 20 magic

  count_part : Page
  count_part = store 4 magic_part 28 m.page_count

  free_part : Page
  free_part = store 4 count_part 32 m.freelist_head

  btree_part : Page
  btree_part = store 4 free_part 36 m.btree_root

  heap_part : Page
  heap_part = store 4 btree_part 40 m.heap_head

  catalog_part : Page
  catalog_part = store 4 heap_part 44 m.catalog_root

  page : Page
  page = store 8 catalog_part 48 db_id

  -- A field ahead of the last one, in the page and in the parts that it was written by.
  field : (w o : ℕ) → o + w ≤ 44 → load w page o ≡ load w heap_part o
  unfolding page catalog_part
  field w o h =
      load-store_apart 8 catalog_part 48 db_id w o (omega arith)
      ∙ load-store_apart 4 heap_part 44 m.catalog_root w o (omega arith)

  field_36 : (w o : ℕ) → o + w ≤ 36 → load w page o ≡ load w free_part o
  unfolding heap_part btree_part
  field_36 w o h =
      field w o (omega arith)
      ∙ load-store_apart 4 btree_part 40 m.heap_head w o (omega arith)
      ∙ load-store_apart 4 free_part 36 m.btree_root w o (omega arith)

  field_28 : (w o : ℕ) → o + w ≤ 28 → load w page o ≡ load w magic_part o
  unfolding free_part count_part
  field_28 w o h =
      field_36 w o (omega arith)
      ∙ load-store_apart 4 count_part 32 m.freelist_head w o (omega arith)
      ∙ load-store_apart 4 magic_part 28 m.page_count w o (omega arith)

  module _ (fits : MetaFits m) (word : db_id < 2 ^ 64) where
    page-magic : load 8 page 20 ≡ magic
    unfolding magic_part
    page-magic = field_28 8 20 (omega arith) ∙ load-store_self 8 _ 20 magic (omega arith)

    page-db_id : load 8 page 48 ≡ db_id
    unfolding page
    page-db_id = load-store_self 8 catalog_part 48 db_id (omega arith)

    page-count : load 4 page 28 ≡ m.page_count
    unfolding free_part count_part
    page-count =
        field_36 4 28 (omega arith)
        ∙ load-store_apart 4 count_part 32 m.freelist_head 4 28 (omega arith)
        ∙ load-store_self 4 magic_part 28 m.page_count (omega (arith, fits.page_count))

    page-free : load 4 page 32 ≡ m.freelist_head
    unfolding free_part
    page-free =
        field_36 4 32 (omega arith)
        ∙ load-store_self 4 count_part 32 m.freelist_head (omega (arith, fits.freelist_head))

    page-btree : load 4 page 36 ≡ m.btree_root
    unfolding heap_part btree_part
    page-btree =
        field 4 36 (omega arith)
        ∙ load-store_apart 4 btree_part 40 m.heap_head 4 36 (omega arith)
        ∙ load-store_self 4 free_part 36 m.btree_root (omega (arith, fits.btree_root))

    page-heap : load 4 page 40 ≡ m.heap_head
    unfolding heap_part
    page-heap =
        field 4 40 (omega arith)
        ∙ load-store_self 4 btree_part 40 m.heap_head (omega (arith, fits.heap_head))

    page-catalog : load 4 page 44 ≡ m.catalog_root
    unfolding page catalog_part
    page-catalog =
        load-store_apart 8 catalog_part 48 db_id 4 44 (omega arith)
        ∙ load-store_self 4 heap_part 44 m.catalog_root (omega (arith, fits.catalog_root))

-- Where the fields fit in their bytes, the meta page that a commit writes is accepted by the recovery
-- of the same database and gives back every field.
pub load_meta-meta_page :
    (m : Meta) (db_id : ℕ)
    → MetaFits m
    → db_id < 2 ^ 64
    → load_meta db_id (meta_page m db_id) ≡ ok m
unfolding load_meta meta_page meta_of check_that page catalog_part heap_part btree_part free_part
    count_part magic_part
load_meta-meta_page m db_id fits word = rw (
  page-magic m db_id fits word,
  page-db_id m db_id fits word,
  page-count m db_id fits word,
  page-free m db_id fits word,
  page-btree m db_id fits word,
  page-heap m db_id fits word,
  page-catalog m db_id fits word,
  ==_refl db_id,
)
