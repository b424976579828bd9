-- ===== src/Page.antt =====
-- Rows in the pages of a table: sqlcore/storage/tables/tables.c and sqlcore/storage/buffer/buffer.c.
-- The bytes of a page are told by the object and the place in it that they are of. Of a page's header only
-- the two offsets, of an item only the low 28 bits of `len` and the flags of `GetItemValid` and
-- `GetItemRedirect` are kept. Pages of a group are different. An outer `none` is an access outside a page
-- or an array.
mod Layout
mod Group
mod Tests
use toadb.Base.{
  ℕ, zero, suc, ◌+◌, ◌-◌, ◌*◌, ◌/◌, ◌%◌, Bool, true, false, List, [], ◌∷◌, Option, none, some, ltb,
  leb, if◌then◌else◌, ◌>>=◌, ◌&&◌,
}
use toadb.Tuple.{RawColumn, size_of_table_row_data}

pub record ItemData : Type 0 where
  pub offset : ℕ
  pub size : ℕ
  pub valid : Bool
  pub redirect : Bool

pub data Cell : Type 0 where
  clear : Cell
  part_of_item : ItemData → ℕ → Cell
  part_of_column : RawColumn → ℕ → Cell

pub record PageData : Type 0 where
  pub data_offset : ℕ
  pub data_end_offset : ℕ
  pub memory : ℕ → Cell

abbrev pub page_max_size : ℕ
page_max_size = 4096

-- sizeof(PageDataHeader) and sizeof(ItemData), with the structures packed.
abbrev pub page_data_header_size : ℕ
page_data_header_size = 40

abbrev pub item_size : ℕ
item_size = 16

abbrev pub max_row_data_size : ℕ
max_row_data_size = 4040

-- memcpy of the first n bytes of an object
unfoldable pub write : (ℕ → Cell) → ℕ → ℕ → (ℕ → Cell) → ℕ → Cell
write memory to n parts a = if leb to a && ltb a (to + n) then parts (a - to) else memory a

unfoldable pub init_page : PageData
init_page = record {
  data_offset = page_data_header_size;
  data_end_offset = page_max_size;
  memory = λ a. Cell.clear;
}

-- HasFreeSpace; the difference is not positive where it stops at 0.
abbrev pub has_free_space : PageData → ℕ → Bool
has_free_space page size = ltb size (page.data_end_offset - page.data_offset)

unfoldable pub replace_row_data : (ℕ → Cell) → ℕ → List RawColumn → ℕ → Cell
replace_row_data memory to [] = memory
replace_row_data memory to (col ∷ cols) =
    replace_row_data (write memory to col.size (Cell.part_of_column col)) (to + col.size) cols

-- The size is that of the row, the sum of its columns.
unfoldable pub insert_row_data :
    PageData → List RawColumn → ℕ → ItemData → Option (PageData × ItemData)
insert_row_data page cols size item =
    let offset = page.data_end_offset - size in
    if leb size page.data_end_offset
    then some (
      record page { memory = replace_row_data page.memory offset cols },
      record item { size = size % 268435456; offset = offset },
    )
    else none

unfoldable pub insert_item_data : PageData → ItemData → Option PageData
insert_item_data page item =
    if leb (page.data_offset + item_size) page_max_size
    then some record {
      data_offset = page.data_offset + item_size;
      data_end_offset = item.offset;
      memory = write page.memory page.data_offset item_size (Cell.part_of_item item);
    }
    else none

unfoldable pub write_row_one_page :
    PageData → List RawColumn → ℕ → ItemData → Option (PageData × ItemData)
write_row_one_page page cols size item = do
  (page1, item1) ← insert_row_data page cols size item
  let item2 = record item1 { valid = true }
  page2 ← insert_item_data page1 item2
  some (page2, item2)

unfoldable pub free_space_check : List PageData → List RawColumn → Option Bool
free_space_check pages [] = some true
free_space_check [] (col ∷ cols) = none
free_space_check (page ∷ pages) (col ∷ cols) =
    let rest = free_space_check pages cols in
    if has_free_space page (col.size + (size_of_table_row_data + item_size))
    then rest
    else some false

-- The loop of InsertRowDataWithGroup; one item is used for all pages.
unfoldable pub group_loop : List PageData → List RawColumn → ItemData → Option (List PageData)
group_loop pages [] item = some pages
group_loop [] (col ∷ cols) item = none
group_loop (page ∷ pages) (col ∷ cols) item = do
  (page', item') ← write_row_one_page page (col ∷ []) col.size item
  rest ← group_loop pages cols item'
  some (page' ∷ rest)

-- The inner `none` is ESTAT_NO_SPACE.
unfoldable pub insert_row_data_with_group :
    List PageData → List RawColumn → ItemData → Option (Option (List PageData))
insert_row_data_with_group pages cols item = do
  free ← free_space_check pages cols
  elim free [
    | true ↦ do pages' ← group_loop pages cols item; some (some pages')
    | false ↦ some none
  ]

abbrev pub read_bytes : (ℕ → Cell) → ℕ → ℕ → List Cell
read_bytes memory from zero = []
read_bytes memory from (suc n) = memory from ∷ read_bytes memory (suc from) n

-- The objects that start in a byte.
abbrev pub column_size_at : Cell → Option ℕ
column_size_at (Cell.part_of_column col zero) = some col.size
column_size_at cell = none

abbrev pub item_at : Cell → Option ItemData
item_at (Cell.part_of_item item zero) = some item
item_at cell = none

-- ReadRowData: the bytes of the column, whose size stands at its start; the inner `none` is NULL.
unfoldable pub read_row_data : PageData → ℕ → Option (Option (List Cell))
read_row_data page offset = do
  size ← column_size_at (page.memory offset)
  some (if leb size max_row_data_size then some (read_bytes page.memory offset size) else none)

-- GetRowDataFromExtPageEx on a page of its type.
unfoldable pub get_row_data_from_ext_page : PageData → ℕ → Option (Option (List Cell))
get_row_data_from_ext_page page item_index =
    let at_item = page_data_header_size + item_index * item_size in
    if leb page.data_offset at_item then some none else (do
      item ← item_at (page.memory at_item)
      if item.valid then read_row_data page item.offset else some none)
