-- ===== src/PageWriter/Split.antt =====
-- src/wot_page_split_policy.h: how many entries a new page gets. `none` is a division by 0 or a failed
-- assertion. `sizeof(TreePageHeader)` is the size of a pointer, 8 bytes.
pub mod Even
pub mod Sound
use aha_adaptive_hotspot_awa.Common.{
  ℕ, ◌+◌, ◌-◌, ◌*◌, ◌/◌, ◌%◌, Bool, true, false, ◌&&◌, ltb, leb, ◌==◌, if◌then◌else◌, Option, none,
  some,
}
use aha_adaptive_hotspot_awa.TreePage.Layout.{page_size, itemid_size}
use aha_adaptive_hotspot_awa.PageWriter.{SplitPolicy}

abbrev pub pointer_size : ℕ
pointer_size = 8

-- The most entries of these sizes on a page.
unfoldable pub page_capacity : ℕ → ℕ → ℕ
page_capacity key_size value_size =
    (page_size - pointer_size) / (key_size + value_size + 3 * itemid_size)

-- The quotient, rounded up.
unfoldable pub round_up : ℕ → ℕ → ℕ
round_up n d = n / d + (if ltb 0 (n % d) then 1 else 0)

-- `DefaultSplitPolicy`; its state is `page_cap_`.
unfoldable pub default_should_alloc : ℕ → ℕ → Option (ℕ × Bool)
default_should_alloc existing_num page_cap = some (page_cap, leb page_cap existing_num)

abbrev pub default_split : SplitPolicy ℕ
default_split = record {
  init = λ key_size value_size non_dup. some (page_capacity key_size value_size);
  should_alloc = default_should_alloc;
}

-- The fields of `EvenSplitPolicy`.
pub record EvenSplit : Type 0 where
  pub cur_page_num : ℕ
  pub cur_page_cap : ℕ
  pub page_num_max_entry : ℕ

-- `Init` at the most entries of a page. No difference goes below 0.
unfoldable pub even_init : ℕ → ℕ → Option EvenSplit
even_init page_cap non_dup =
    let total_page_num = round_up non_dup page_cap in
    let cur_page_cap = round_up non_dup total_page_num in
    let page_num_max_entry = non_dup - total_page_num * (cur_page_cap - 1) in
    let page_with_lesser_entry = total_page_num - page_num_max_entry in
    if page_cap == 0
    then none
    else (if total_page_num == 0
        then none
        else (if leb cur_page_cap page_cap
              && (page_num_max_entry * cur_page_cap + page_with_lesser_entry * (cur_page_cap - 1)
                  == non_dup)
            then some (record {
              cur_page_num = 0;
              cur_page_cap = cur_page_cap;
              page_num_max_entry = page_num_max_entry;
            })
            else none))

-- The state behind a page that is full.
unfoldable pub even_next : EvenSplit → EvenSplit
even_next s = record s {
  cur_page_num = s.cur_page_num + 1;
  cur_page_cap =
      if s.cur_page_num + 1 == s.page_num_max_entry then s.cur_page_cap - 1 else s.cur_page_cap;
}

unfoldable pub even_should_alloc : ℕ → EvenSplit → Option (EvenSplit × Bool)
unfolding even_next
even_should_alloc existing_num s =
    if leb s.cur_page_cap existing_num then some (even_next s, true) else some (s, false)

abbrev pub even_split : SplitPolicy EvenSplit
even_split = record {
  init = λ key_size value_size non_dup. even_init (page_capacity key_size value_size) non_dup;
  should_alloc = even_should_alloc;
}
