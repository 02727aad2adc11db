-- ===== src/PageStore.antt =====
-- What the B+Tree and the heap ask of the buffer pool (src/buffer_pool.hpp), for a state `S`.
use labdb.Prelude.{ℕ, suc, ◌<◌, ◌^◌, ◌≡◌, Option, none, some, Outcome, ok, if◌then◌else◌, ◌==◌}
use labdb.Common.{zeroes}
use labdb.Page.{Page, page_size, id, set_id}

pub record PageStore (S : Type 0) : Type 0 where
  pub read_page : S → ℕ → Outcome (S × Page)
  pub write_page : S → ℕ → Page → Outcome S
  pub allocate_page : S → Outcome (S × ℕ)
  pub free_page : S → ℕ → Outcome S
  pub btree_root : S → ℕ
  pub set_btree_root : S → ℕ → S
  pub heap_head : S → ℕ
  pub set_heap_head : S → ℕ → S

-- Two buffers with the same page in them.
abbrev pub SamePage : Page → Page → Type 0
SamePage p q = (i : ℕ) → i < page_size → p i ≡ q i

-- Page ids to pages, and such a view with one page replaced.
abbrev pub View : Type 0
View = ℕ → Option Page

abbrev pub put_page : View → ℕ → Page → View
put_page view id page j = if id == j then some page else view j

-- What a client relies on: `Shows s view room` says that the store in the state `s` holds the pages of
-- `view`, and that `room` more can be allocated. A page of the view can be read, as it is there, and
-- replaced by a page with its id; an allocated page is a new one, with nothing but its id. Nothing else
-- changes in the view.
pub record PageLaws {S : Type 0} (store : PageStore S) (Shows : S → View → ℕ → Type 0)
    : Type 0 where
  pub read :
      (s : S) (view : View) (room n : ℕ) (p : Page)
      → Shows s view room
      → view n ≡ some p
      → (t : S) × (q : Page) × (store.read_page s n ≡ ok (t, q)) × SamePage p q × Shows t view room
  pub write :
      (s : S) (view : View) (room n : ℕ) (p page : Page)
      → Shows s view room
      → view n ≡ some p
      → id page ≡ n
      → (t : S) × (store.write_page s n page ≡ ok t) × Shows t (put_page view n page) room
  pub allocate :
      (s : S) (view : View) (room : ℕ)
      → Shows s view (suc room)
      → (t : S) × (n : ℕ) × (store.allocate_page s ≡ ok (t, n))
        × (view n ≡ none)
        × (n < 2 ^ 32)
        × Shows t (put_page view n (set_id zeroes n)) room
