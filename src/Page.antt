-- ===== src/Page.antt =====
-- src/page.hpp: a page is 4096 bytes with typed access to its 20-byte header.
use labdb.Prelude.{ℕ}
use labdb.Common.{Bytes, load_u16, load_u32, store_u16, store_u32}

abbrev pub page_size : ℕ
page_size = 4096

abbrev pub null_page : ℕ
null_page = 0

abbrev pub page_header_size : ℕ
page_header_size = 20

pub data PageType : Type 0 where
  invalid meta slotted free btree_leaf btree_internal catalog : PageType

abbrev pub page_type_code : PageType → ℕ
page_type_code PageType.invalid = 0
page_type_code PageType.meta = 1
page_type_code PageType.slotted = 2
page_type_code PageType.free = 3
page_type_code PageType.btree_leaf = 4
page_type_code PageType.btree_internal = 5
page_type_code PageType.catalog = 6

abbrev pub Page : Type 0
Page = Bytes

abbrev pub id : Page → ℕ
id p = load_u32 p 0

abbrev pub set_id : Page → ℕ → Page
set_id p v = store_u32 p 0 v

-- The code that `type()` casts; a value outside of the enumeration stays itself.
abbrev pub type_code : Page → ℕ
type_code p = load_u16 p 4

abbrev pub set_type : Page → PageType → Page
set_type p t = store_u16 p 4 (page_type_code t)

abbrev pub slot_count : Page → ℕ
slot_count p = load_u16 p 6

abbrev pub set_slot_count : Page → ℕ → Page
set_slot_count p v = store_u16 p 6 v

abbrev pub free_start : Page → ℕ
free_start p = load_u16 p 8

abbrev pub set_free_start : Page → ℕ → Page
set_free_start p v = store_u16 p 8 v

abbrev pub free_end : Page → ℕ
free_end p = load_u16 p 10

abbrev pub set_free_end : Page → ℕ → Page
set_free_end p v = store_u16 p 10 v

abbrev pub frag_bytes : Page → ℕ
frag_bytes p = load_u16 p 12

abbrev pub set_frag_bytes : Page → ℕ → Page
set_frag_bytes p v = store_u16 p 12 v

abbrev pub next_page : Page → ℕ
next_page p = load_u32 p 16

abbrev pub set_next_page : Page → ℕ → Page
set_next_page p v = store_u32 p 16 v
