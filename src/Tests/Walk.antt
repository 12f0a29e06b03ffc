-- ===== src/Tests/Walk.antt =====
-- A walk over the entries of two keys, one of them deleted.
use aha_adaptive_hotspot_awa.Common.{◌≡◌, refl, List, [], ◌∷◌, true, false, some, arith}
use aha_adaptive_hotspot_awa.SortedIterator.{
  deletion, value, InternalEntry, seek_both_ends, collect,
}
use aha_adaptive_hotspot_awa.SortedIterator.Hidden.{is_bad, is_value}
use aha_adaptive_hotspot_awa.SortedIterator.Ranked.{before_all, in_order, outranked, newest_among}
use aha_adaptive_hotspot_awa.SortedIterator.Newest.{
  plain, all_behind, collect-newest, collect-plain,
}
use aha_adaptive_hotspot_awa.Tests.Bytewise.{bytewise, lex}
use aha_adaptive_hotspot_awa.Tests.Pages.{key_a, key_b, key_m, val_a}

abbrev first_old : InternalEntry
first_old = record { user_key = key_a; sequence = 3; kind = value; content = val_a }

abbrev first_new : InternalEntry
first_new = record { user_key = key_a; sequence = 5; kind = value; content = [] }

abbrev middle : InternalEntry
middle = record { user_key = key_m; sequence = 6; kind = value; content = val_a }

abbrev second_gone : InternalEntry
second_gone = record { user_key = key_b; sequence = 4; kind = deletion; content = [] }

abbrev second_old : InternalEntry
second_old = record { user_key = key_b; sequence = 2; kind = value; content = val_a }

abbrev entries : List InternalEntry
entries = first_new ∷ first_old ∷ middle ∷ second_gone ∷ second_old ∷ []

entries-in_order : in_order entries ≡ true
unfolding in_order before_all lex
entries-in_order = refl

entries-newest : newest_among 5 entries entries ≡ first_new ∷ []
unfolding newest_among outranked is_value is_bad lex
entries-newest = refl

collect-newest_example :
    collect 5 6 (seek_both_ends 5 [] entries false) ≡ some (newest_among 5 entries entries)
collect-newest_example = collect-newest 5 [] entries 6 entries-in_order (omega arith)

middle-plain : plain 6 (first_old ∷ middle ∷ second_old ∷ []) ≡ true
unfolding plain is_value all_behind lex
middle-plain = refl

collect-plain_example :
    collect 6 4 (seek_both_ends 6 [] (first_old ∷ middle ∷ second_old ∷ []) true)
    ≡ some (first_old ∷ middle ∷ second_old ∷ [])
collect-plain_example = collect-plain 6 [] _ 4 true middle-plain (omega arith)
