-- ===== src/Page/Layout.antt =====
-- Pages whose items and columns do not overlap.
use toadb.Base.{
  ℕ, zero, suc, ◌+◌, ◌-◌, ◌*◌, ◌%◌, ◌≤◌, ◌<◌, ◌≡◌, refl, ap, sym, ◌∙◌, subst, true, false, List, [],
  ◌∷◌, ◌++◌, some, leb, ◌⊎◌, inl, inr, get_elem?, lt-length, length-append, length, arith,
}
use toadb.Tuple.{RawColumn}
use toadb.Page.{
  ItemData, Cell, PageData, page_max_size, page_data_header_size, item_size, max_row_data_size,
  write, init_page, replace_row_data, insert_row_data, insert_item_data, write_row_one_page,
  read_bytes, read_row_data, get_row_data_from_ext_page,
}

-- A column in a page, under the item with an index.
pub record Stored (page : PageData) (index : ℕ) (col : RawColumn) : Type 0 where
  pub item : ItemData
  pub item_valid : item.valid ≡ true
  pub item_there :
      page.memory (page_data_header_size + index * item_size) ≡ Cell.part_of_item item 0
  pub above : page.data_end_offset ≤ item.offset
  pub below : item.offset + col.size ≤ page_max_size
  pub bytes : (k : ℕ) → k < col.size → page.memory (item.offset + k) ≡ Cell.part_of_column col k

-- A page with one item for each of the given columns, items and columns apart and inside the page.
pub record IsLayout (page : PageData) (cols : List RawColumn) : Type 0 where
  pub items_end : page.data_offset ≡ page_data_header_size + length cols * item_size
  pub apart : page.data_offset ≤ page.data_end_offset
  pub inside : page.data_end_offset ≤ page_max_size
  pub each : (i : ℕ) (col : RawColumn) → get_elem? cols i ≡ some col → Stored page i col

write_out :
    (memory : ℕ → Cell) (to n : ℕ) (parts : ℕ → Cell) (a : ℕ)
    → (a < to) ⊎ (to + n ≤ a)
    → write memory to n parts a ≡ memory a
unfolding write
write_out memory to n parts a h = ground arith

write_in :
    (memory : ℕ → Cell) (to n : ℕ) (parts : ℕ → Cell) (k : ℕ)
    → k < n
    → write memory to n parts (to + k) ≡ parts k
unfolding write
write_in memory to n parts k h = let e : to + k - to ≡ k = omega arith in rw e (ground arith)

pub init_page-IsLayout : IsLayout init_page []
unfolding init_page
init_page-IsLayout = record {
  items_end = refl;
  apart = omega arith;
  inside = omega arith;
  each = λ i col e. absurd (cc);
}

get_elem?-append_cases :
    (cols : List RawColumn) (new col : RawColumn) (i : ℕ)
    → get_elem? (cols ++ new ∷ []) i ≡ some col
    → (get_elem? cols i ≡ some col) ⊎ ((i ≡ length cols) × (new ≡ col))
get_elem?-append_cases [] new col zero e = inr (refl, ground arith)
get_elem?-append_cases [] new col (suc i) e = absurd (cc)
get_elem?-append_cases (c ∷ cols) new col zero e = inl e
get_elem?-append_cases (c ∷ cols) new col (suc i) e =
    elim (get_elem?-append_cases cols new col i e) [
      | inl there ↦ inl there
      | inr (at_end, same) ↦ inr (ap suc at_end, same)
    ]

-- A page after a column and its item are written, and the item.
abbrev pub new_item : PageData → RawColumn → ItemData → ItemData
new_item page col item = record item {
  size = col.size % 268435456;
  offset = page.data_end_offset - col.size;
  valid = true;
}

abbrev pub column_memory : PageData → RawColumn → ℕ → Cell
column_memory page col =
    write page.memory (page.data_end_offset - col.size) col.size (Cell.part_of_column col)

abbrev pub new_page : PageData → RawColumn → ItemData → PageData
new_page page col item = record {
  data_offset = page.data_offset + item_size;
  data_end_offset = page.data_end_offset - col.size;
  memory =
      write (column_memory page col) page.data_offset item_size
        (Cell.part_of_item (new_item page col item));
}

pub write_row_one_page-new :
    (page : PageData) (col : RawColumn) (item : ItemData)
    → col.size ≤ page.data_end_offset
    → page.data_offset + item_size ≤ page_max_size
    → write_row_one_page page (col ∷ []) col.size item
      ≡ some (new_page page col item, new_item page col item)
unfolding write_row_one_page insert_row_data insert_item_data replace_row_data
write_row_one_page-new page col item fits room =
    let e : leb col.size page.data_end_offset ≡ true = ground arith in
    let f : leb (page.data_offset + item_size) page_max_size ≡ true = ground arith in rw (e, f) refl

module _ (page : PageData) (col : RawColumn) (item : ItemData)
    (fits : col.size + 24 < page.data_end_offset - page.data_offset) where
  memory-outside :
      (a : ℕ)
      → (a < page.data_offset) ⊎ (page.data_end_offset ≤ a)
      → (new_page page col item).memory a ≡ page.memory a
  memory-outside a (inl low) =
      write_out (column_memory page col) page.data_offset item_size
        (Cell.part_of_item (new_item page col item)) a (inl low)
      ∙ write_out page.memory (page.data_end_offset - col.size) col.size (Cell.part_of_column col) a
          (inl (omega arith))
  memory-outside a (inr high) =
      write_out (column_memory page col) page.data_offset item_size
        (Cell.part_of_item (new_item page col item)) a (inr (omega arith))
      ∙ write_out page.memory (page.data_end_offset - col.size) col.size (Cell.part_of_column col) a
          (inr (omega arith))

  memory-column :
      (k : ℕ)
      → k < col.size
      → (new_page page col item).memory (page.data_end_offset - col.size + k)
        ≡ Cell.part_of_column col k
  memory-column k h =
      write_out (column_memory page col) page.data_offset item_size
        (Cell.part_of_item (new_item page col item)) (page.data_end_offset - col.size + k)
        (inr (omega arith))
      ∙ write_in page.memory (page.data_end_offset - col.size) col.size (Cell.part_of_column col) k
          h

  module _ (cols : List RawColumn) (layout : IsLayout page cols) where
    Stored-old :
        (i : ℕ) (c : RawColumn) → get_elem? cols i ≡ some c → Stored (new_page page col item) i c
    Stored-old i c there =
        let old = layout.each i c there in
        let early : page_data_header_size + i * item_size < page.data_offset =
          omega (arith, lt-length cols i there, layout.items_end) in
        record {
          item = old.item;
          item_valid = old.item_valid;
          item_there =
              memory-outside (page_data_header_size + i * item_size) (inl early) ∙ old.item_there;
          above = omega (arith, old.above);
          below = old.below;
          bytes = λ k h.
              memory-outside (old.item.offset + k) (inr (omega (arith, old.above))) ∙ old.bytes k h;
        }

    Stored-new : Stored (new_page page col item) (length cols) col
    Stored-new =
        let e : page_data_header_size + length cols * item_size ≡ page.data_offset + 0 =
          omega (arith, layout.items_end) in
        record {
          item = new_item page col item;
          item_valid = refl;
          item_there =
              ap (new_page page col item).memory e
              ∙ write_in (column_memory page col) page.data_offset item_size
                  (Cell.part_of_item (new_item page col item)) 0 (omega arith);
          above = omega arith;
          below = omega (arith, layout.inside);
          bytes = memory-column;
        }

    pub new_page-IsLayout : IsLayout (new_page page col item) (cols ++ col ∷ [])
    new_page-IsLayout = record {
      items_end = omega (arith, layout.items_end, length-append cols (col ∷ []));
      apart = omega arith;
      inside = omega (arith, layout.inside);
      each = λ i c there. elim (get_elem?-append_cases cols col c i there) [
        | inl old ↦ Stored-old i c old
        | inr (at_end, same) ↦
            subst (λ x. Stored (new_page page col item) i x) same
              (subst (λ n. Stored (new_page page col item) n col) (sym at_end) Stored-new)
      ];
    }

-- What a page holds of a column is its bytes from the first.
abbrev pub column_bytes : RawColumn → ℕ → ℕ → List Cell
column_bytes col from zero = []
column_bytes col from (suc n) = Cell.part_of_column col from ∷ column_bytes col (suc from) n

read_bytes-column :
    (memory : ℕ → Cell) (at : ℕ) (col : RawColumn) (from n : ℕ)
    → ((k : ℕ) → k < from + n → memory (at + k) ≡ Cell.part_of_column col k)
    → read_bytes memory (at + from) n ≡ column_bytes col from n
read_bytes-column memory at col from zero h = refl
read_bytes-column memory at col from (suc n) h =
    let e : suc (at + from) ≡ at + suc from = omega arith in
    let later = read_bytes-column memory at col (suc from) n (λ k lt. h k (omega arith)) in
    rw (h from (omega arith), e, later) refl

pub get_row_data_from_ext_page-IsLayout :
    (page : PageData) (cols : List RawColumn) (i : ℕ) (col : RawColumn)
    → IsLayout page cols
    → get_elem? cols i ≡ some col
    → 0 < col.size
    → col.size ≤ max_row_data_size
    → get_row_data_from_ext_page page i ≡ some (some (column_bytes col 0 col.size))
unfolding get_row_data_from_ext_page read_row_data
get_row_data_from_ext_page-IsLayout page cols i col layout there some_bytes small =
    let s = layout.each i col there in
    let early : leb page.data_offset (page_data_header_size + i * item_size) ≡ false =
      ground (arith, lt-length cols i there, layout.items_end) in
    let first : page.memory s.item.offset ≡ Cell.part_of_column col 0 =
      ap page.memory (omega arith) ∙ s.bytes 0 some_bytes in
    let size_small : leb col.size max_row_data_size ≡ true = ground arith in
    let all : read_bytes page.memory s.item.offset col.size ≡ column_bytes col 0 col.size =
      ap (λ n. read_bytes page.memory n col.size) (omega arith)
      ∙ read_bytes-column page.memory s.item.offset col 0 col.size
          (λ k lt. s.bytes k (omega arith)) in
    rw (early, s.item_there, s.item_valid, first, size_small, all) refl
