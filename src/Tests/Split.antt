-- ===== src/Tests/Split.antt =====
-- The split of a leaf of a tree.
use aha_adaptive_hotspot_awa.Common.{
  ℕ, ◌<◌, ◌≡◌, ◌≢◌, refl, List, [], ◌∷◌, arith, ap, has, sym, ◌∙◌,
}
use aha_adaptive_hotspot_awa.TreePage.Layout.{Page, page_highkey}
use aha_adaptive_hotspot_awa.TreePage.Insert.Moved.{entry_key, cost_from}
use aha_adaptive_hotspot_awa.LockManager.Table.{LockTable}
use aha_adaptive_hotspot_awa.Btree.{returned}
use aha_adaptive_hotspot_awa.Btree.Locks.{IsHeldBy}
use aha_adaptive_hotspot_awa.Btree.Overflow.{insert_and_split_leaf_pages}
use aha_adaptive_hotspot_awa.Btree.Overflow.LeafSplit.Lookups.{LeafSplit}
use aha_adaptive_hotspot_awa.Btree.Overflow.Leaves.{split_tree, insert_and_split_leaf_pages_lem}
use aha_adaptive_hotspot_awa.Tests.Bytewise.{bytewise}
use aha_adaptive_hotspot_awa.Tests.Pages.{
  pair, pair-IsSorted, key_m, val_a, entry_a, entry_b, each, nonempty, three_bytes,
}
use aha_adaptive_hotspot_awa.Tests.Tree.{two_levels, no_lock}

pair_keys : (i : ℕ) → i < 2 → entry_key pair i ≢ []
pair_keys =
    each _ (λ z. nonempty _ _ (sym (ap (λ (x : List ℕ × List ℕ). x.0) entry_a) ∙ z))
      (λ z. nonempty _ _ (sym (ap (λ (x : List ℕ × List ℕ). x.0) entry_b) ∙ z))

first_cost : cost_from pair 0 1 ≡ 17
unfolding cost_from
first_cost = rw (entry_a) refl

second_cost : cost_from pair 1 1 ≡ 17
unfolding cost_from
second_cost = rw (entry_b) refl

insert_and_split_leaf_pages_lem_example :
    (page child : Page) × (l : LockTable) × (insert_and_split_leaf_pages 7 key_m val_a two_levels
      ≡ returned (
        (page_highkey page, 7) ∷ (page_highkey child, 9) ∷ [],
        split_tree two_levels 7 page child l,
      ))
    × LeafSplit pair 9 key_m val_a page child
    × IsHeldBy l []
unfolding has
insert_and_split_leaf_pages_lem_example =
    insert_and_split_leaf_pages_lem two_levels 7 key_m val_a [] pair-IsSorted refl pair_keys
      (nonempty _ _) (λ i h e. three_bytes i h) (omega arith) (omega (arith, first_cost))
      (omega (arith, second_cost)) (λ z. absurd (cc)) no_lock refl
