-- ===== src/Page/Tests.antt =====
-- Two new pages of a group, with a row of an int and a string.
use toadb.Base.{ℕ, ◌≡◌, refl, false, List, [], ◌∷◌, Option, none, some, ◌⊎◌}
use toadb.Tuple.{RawColumn, column}
use toadb.Page.{
  ItemData, PageData, init_page, insert_row_data_with_group, free_space_check, group_loop,
  write_row_one_page, insert_row_data, insert_item_data,
}
use toadb.Page.Layout.{IsLayout, init_page-IsLayout}
use toadb.Page.Group.{All, IsReadable, IsShort, add_row, insert_row_data_with_group-IsLayout}

abbrev pages : List PageData
pages = init_page ∷ init_page ∷ []

abbrev row : List RawColumn
row = column 0 4 none ∷ column 1 9 none ∷ []

abbrev item : ItemData
item = record { offset = 0; size = 0; valid = false; redirect = false }

abbrev empty : List (List RawColumn)
empty = [] ∷ [] ∷ []

insert_row_data_with_group-IsLayout_example :
    ((i : ℕ) × IsShort pages row i × (insert_row_data_with_group pages row item ≡ some none))
    ⊎ ((pages' : List PageData) × (insert_row_data_with_group pages row item ≡ some (some pages'))
        × All IsLayout pages' (add_row empty row)
        × All IsReadable pages' (add_row empty row))
insert_row_data_with_group-IsLayout_example =
    insert_row_data_with_group-IsLayout pages empty row item
      (All.page_and init_page [] init_page-IsLayout
        (All.page_and init_page [] init_page-IsLayout All.no_page))
      refl

-- There is room: 48 + 4 and 48 + 9 bytes below the end of the pages, and one item in each.
abbrev offsets : Option (Option (List PageData)) → List (ℕ × ℕ)
offsets (some (some (p ∷ q ∷ []))) =
    (p.data_offset, p.data_end_offset) ∷ (q.data_offset, q.data_end_offset) ∷ []
offsets other = []

inserted : offsets (insert_row_data_with_group pages row item) ≡ (56, 4044) ∷ (56, 4039) ∷ []
unfolding insert_row_data_with_group free_space_check group_loop write_row_one_page insert_row_data
    insert_item_data init_page
inserted = refl
