-- ===== src/Page/Group.antt =====
-- Rows in the pages of a group, of which each holds one column of the rows.
use toadb.Base.{
  ℕ, zero, suc, ◌+◌, ◌-◌, ◌≤◌, ◌<◌, ◌≡◌, refl, true, false, List, [], ◌∷◌, ◌++◌, none, some, ◌⊎◌,
  inl, inr, Bool-cases, get_elem?, length, arith,
}
use toadb.Tuple.{RawColumn, size_of_table_row_data}
use toadb.Page.{
  ItemData, PageData, item_size, max_row_data_size, has_free_space, free_space_check, group_loop,
  insert_row_data_with_group, get_row_data_from_ext_page,
}
use toadb.Page.Layout.{
  IsLayout, column_bytes, new_page, new_item, new_page-IsLayout, write_row_one_page-new,
  get_row_data_from_ext_page-IsLayout,
}

-- A relation between the pages of a group and the columns that each holds.
pub data All (P : PageData → List RawColumn → Type 0)
    : List PageData → List (List RawColumn) → Type 0 where
  no_page : All P [] []
  page_and :
      (page : PageData) (held : List RawColumn) {pages : List PageData}
      {helds : List (List RawColumn)}
      → P page held
      → All P pages helds
      → All P (page ∷ pages) (held ∷ helds)

-- Each page gives the bytes of each of its columns under the index of the column.
abbrev pub IsReadable : PageData → List RawColumn → Type 0
IsReadable page held =
    (i : ℕ) (col : RawColumn)
    → get_elem? held i ≡ some col
    → 0 < col.size
    → col.size ≤ max_row_data_size
    → get_row_data_from_ext_page page i ≡ some (some (column_bytes col 0 col.size))

-- A row added, one column to each page.
abbrev pub add_row : List (List RawColumn) → List RawColumn → List (List RawColumn)
add_row [] cols = []
add_row (held ∷ helds) [] = held ∷ helds
add_row (held ∷ helds) (col ∷ cols) = (held ++ col ∷ []) ∷ add_row helds cols

-- A column that its page has no room for, with its header and its item.
abbrev pub IsShort : List PageData → List RawColumn → ℕ → Type 0
IsShort pages cols i =
    (page : PageData) × (col : RawColumn) × (get_elem? pages i ≡ some page)
    × (get_elem? cols i ≡ some col)
    × (page.data_end_offset - page.data_offset ≤ col.size + 24)

-- The check of the free space of each page.
free_space_check-outcome :
    (pages : List PageData) (cols : List RawColumn)
    → length pages ≡ length cols
    → ((i : ℕ) × IsShort pages cols i × (free_space_check pages cols ≡ some false))
      ⊎ ((free_space_check pages cols ≡ some true)
          × ((i : ℕ) (page : PageData) (col : RawColumn)
              → get_elem? pages i ≡ some page
              → get_elem? cols i ≡ some col
              → col.size + 24 < page.data_end_offset - page.data_offset))
unfolding free_space_check
free_space_check-outcome [] [] same = inr (refl, λ i page col e. absurd (cc))
free_space_check-outcome [] (col ∷ cols) same = absurd (omega (arith, same))
free_space_check-outcome (page ∷ pages) [] same = absurd (omega (arith, same))
free_space_check-outcome (page ∷ pages) (col ∷ cols) same =
    elim (Bool-cases (has_free_space page (col.size + (size_of_table_row_data + item_size)))) [
      | inr full ↦ inl (0, (page, col, refl, refl, ground arith), rw full refl)
      | inl free ↦ elim (free_space_check-outcome pages cols (omega (arith, same))) [
        | inl (i, (p, c, at_page, at_col, short), refused) ↦
            inl (suc i, (p, c, at_page, at_col, short), rw free refused)
        | inr (granted, each) ↦ inr (
          rw free granted,
          λ i.
              elim i
                as (λ j.
                  (p : PageData) (c : RawColumn)
                  → get_elem? (page ∷ pages) j ≡ some p
                  → get_elem? (col ∷ cols) j ≡ some c
                  → c.size + 24 < p.data_end_offset - p.data_offset) [
                    | zero ↦ λ p c ep ec.
                        let room : col.size + 24 < page.data_end_offset - page.data_offset =
                          ground arith in
                        ground arith
                    | suc j ↦ λ p c ep ec. each j p c ep ec
                  ],
        )
      ]
    ]

group_loop-IsLayout :
    (pages : List PageData) (helds : List (List RawColumn)) (cols : List RawColumn)
    (item : ItemData)
    → All IsLayout pages helds
    → length pages ≡ length cols
    → ((i : ℕ) (page : PageData) (col : RawColumn)
        → get_elem? pages i ≡ some page
        → get_elem? cols i ≡ some col
        → col.size + 24 < page.data_end_offset - page.data_offset)
    → (pages' : List PageData) × (group_loop pages cols item ≡ some pages')
      × All IsLayout pages' (add_row helds cols)
unfolding group_loop
group_loop-IsLayout pages helds [] item (All.no_page) same room = ([], refl, All.no_page)
group_loop-IsLayout pages helds (col ∷ cols) item (All.no_page) same room =
    absurd (omega (arith, same))
group_loop-IsLayout pages helds [] item (All.page_and page held layout more) same room =
    absurd (omega (arith, same))
group_loop-IsLayout pages helds (col ∷ cols) item
      (All.page_and page held {pages = ps} {helds = hs} layout more) same room =
    let fits = room 0 page col refl refl in
    let (ps', made, layouts) =
      group_loop-IsLayout ps hs cols (new_item page col item) more (omega (arith, same))
        (λ i p c ep ec. room (suc i) p c ep ec) in
    (
      new_page page col item ∷ ps',
      rw
          (
            write_row_one_page-new page col item (omega (arith, fits))
                (omega (arith, fits, layout.inside)),
            made,
          )
          refl,
      All.page_and (new_page page col item) (held ++ col ∷ [])
          (new_page-IsLayout page col item fits held layout) layouts,
    )

All-IsReadable :
    (pages : List PageData) (helds : List (List RawColumn))
    → All IsLayout pages helds
    → All IsReadable pages helds
All-IsReadable pages helds All.no_page = All.no_page
All-IsReadable pages helds (All.page_and page held {pages = ps} {helds = hs} layout more) =
    All.page_and page held
      (λ i col there some_bytes small.
        get_row_data_from_ext_page-IsLayout page held i col layout there some_bytes small)
      (All-IsReadable ps hs more)

-- If every page of a group holds its columns apart and inside the page, and a row has a column
-- for each page, then InsertRowDataWithGroup answers that there is no space, because a page has
-- no room for its column with a header and an item, or adds to each page its column; the pages
-- then hold the old columns and the new one apart and inside the page, and
-- GetRowDataFromExtPageEx returns the bytes of each of them that is not empty and not above
-- MAX_ROW_DATA_SIZE.
pub insert_row_data_with_group-IsLayout :
    (pages : List PageData) (helds : List (List RawColumn)) (cols : List RawColumn)
    (item : ItemData)
    → All IsLayout pages helds
    → length pages ≡ length cols
    → ((i : ℕ) × IsShort pages cols i × (insert_row_data_with_group pages cols item ≡ some none))
      ⊎ ((pages' : List PageData) × (insert_row_data_with_group pages cols item
            ≡ some (some pages'))
          × All IsLayout pages' (add_row helds cols)
          × All IsReadable pages' (add_row helds cols))
unfolding insert_row_data_with_group
insert_row_data_with_group-IsLayout pages helds cols item layouts same =
    elim (free_space_check-outcome pages cols same) [
      | inl (i, short, refused) ↦ inl (i, short, rw refused refl)
      | inr (granted, room) ↦
          let (pages', made, layouts') =
            group_loop-IsLayout pages helds cols item layouts same room in
          inr (
            pages',
            rw (granted, made) refl,
            layouts',
            All-IsReadable pages' (add_row helds cols) layouts',
          )
    ]
