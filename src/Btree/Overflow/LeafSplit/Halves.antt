-- ===== src/Btree/Overflow/LeafSplit/Halves.antt =====
-- src/btree/btree.cc: one half of a full leaf, with or without the new entry.
use aha_adaptive_hotspot_awa.Common.{
  ℕ, ◌+◌, ◌<◌, ◌≡◌, ◌≢◌, refl, Bool, true, false, some, List, [], length,
}
use aha_adaptive_hotspot_awa.Leveldb.{Leveldb}
use aha_adaptive_hotspot_awa.TreePage.Layout.{
  Page, entry_pos, page_read_pivot_at_offset, decode_leaf_entry, decode_index_entry,
}
use aha_adaptive_hotspot_awa.TreePage.Search.Bounds.{IsSorted}
use aha_adaptive_hotspot_awa.TreePage.Valid.{IsValid}
use aha_adaptive_hotspot_awa.TreePage.Insert.Moved.{Moved}
use aha_adaptive_hotspot_awa.TreePage.Lookup.{get_value_with_key}
use aha_adaptive_hotspot_awa.TreePage.Lookup.AfterInsert.{get-insert_self, get-insert_other}
use aha_adaptive_hotspot_awa.TreePage.Lookup.Pivots.{Grows, Grows-refl, insert-Grows}
use aha_adaptive_hotspot_awa.Btree.Overflow.{insert_where}

module _ ⦃L : Leveldb⦄ where
  dirty-IsValid : (p : Page) → IsValid p → IsValid (record p { is_dirty = true })
  unfolding entry_pos
  dirty-IsValid p v = record {
    start = v.start;
    room = v.room;
    top = v.top;
    low = v.low;
    high = v.high;
    apart = v.apart;
  }

  pub linked-IsValid : (p : Page) (right : ℕ) → IsValid p → IsValid (record p { right = right })
  unfolding entry_pos
  linked-IsValid p right v = record {
    start = v.start;
    room = v.room;
    top = v.top;
    low = v.low;
    high = v.high;
    apart = v.apart;
  }

  pub linked-IsSorted : (p : Page) (right : ℕ) → IsSorted p → IsSorted (record p { right = right })
  unfolding page_read_pivot_at_offset decode_leaf_entry decode_index_entry entry_pos
  linked-IsSorted p right sorted = sorted

  pub dirty-Moved :
      (src dest dest' : Page) (off rounds : ℕ)
      → Moved src dest off rounds dest'
      → Moved src dest off rounds (record dest' { is_dirty = true })
  unfolding page_read_pivot_at_offset decode_leaf_entry decode_index_entry entry_pos
  dirty-Moved src dest dest' off rounds m = record {
    valid = dirty-IsValid dest' m.valid;
    sorted = m.sorted;
    leaf = m.leaf;
    count = m.count;
    front = m.front;
    back = m.back;
    used = m.used;
  }

  -- The bytes that a new entry takes with its slot.
  abbrev pub new_cost : List ℕ → List ℕ → ℕ
  new_cost key val = length key + length val + 12

  -- A half with or without the new entry.
  pub record Half (b : Bool) (key val : List ℕ) (p p' : Page) : Type 0 where
    pub valid : IsValid p'
    pub sorted : IsSorted p'
    pub self : b ≡ true → get_value_with_key p' key ≡ some val
    pub other : (k : List ℕ) → k ≢ [] → k ≢ key → get_value_with_key p' k ≡ get_value_with_key p k
    pub grows : Grows b p p' key

  pub insert_where-Half :
      (b : Bool) (p : Page) (key val : List ℕ)
      → IsValid p
      → IsSorted p
      → p.is_leaf ≡ true
      → p.free_start + new_cost key val < p.free_end
      → key ≢ []
      → ((i : ℕ)
          → i < p.item_num
          → page_read_pivot_at_offset p i ≡ key
          → length val ≡ length (decode_leaf_entry p i).1)
      → (p' : Page) × (insert_where b key val p ≡ some p') × Half b key val p p'
  unfolding insert_where
  insert_where-Half false p key val valid sorted leaf room some_key same = (
    p,
    refl,
    record {
      valid = valid;
      sorted = sorted;
      self = λ e. absurd (cc);
      other = λ k some_k ne. refl;
      grows = Grows-refl p key;
    },
  )
  insert_where-Half true p key val valid sorted leaf room some_key same =
      let (p', done, valid', sorted', self) =
        get-insert_self p key val valid sorted leaf room some_key same in
      (
        p',
        done,
        record {
          valid = valid';
          sorted = sorted';
          self = λ e. self;
          other = λ k some_k ne.
              get-insert_other p key val valid sorted leaf room some_key same p' k done some_k ne;
          grows = insert-Grows p key val leaf p' valid sorted room some_key same done;
        },
      )
