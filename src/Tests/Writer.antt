-- ===== src/Tests/Writer.antt =====
-- The scans at three versions of two keys, and the plan of pages for a thousand entries.
use aha_adaptive_hotspot_awa.Common.{
  ℕ, ◌+◌, ◌*◌, ◌-◌, ◌<◌, ◌≤◌, ◌≡◌, refl, arith, List, [], ◌∷◌, length, Bool, true, false, Option,
  none, some, ◌==◌,
}
use aha_adaptive_hotspot_awa.TreePage.Layout.{Page}
use aha_adaptive_hotspot_awa.PageWriter.{
  KeyFormat, ParsedKey, Entry, scan_start, count_step, count_from, Writer, write_from,
}
use aha_adaptive_hotspot_awa.PageWriter.Kept.{SameKeys, below_max, kept, write_all, scans-kept}
use aha_adaptive_hotspot_awa.PageWriter.Split.{EvenSplit, even_init, even_split, round_up}
use aha_adaptive_hotspot_awa.PageWriter.Split.Even.{after, planned, even_init_plan, even_pages_hold}
use aha_adaptive_hotspot_awa.PageWriter.Split.Sound.{
  SoundRemedy, sound_init, sound_next, IsSound, sound_init-IsSound, sound_next-IsSound,
}
use aha_adaptive_hotspot_awa.Tests.Bytewise.{bytewise}
use aha_adaptive_hotspot_awa.Tests.Pages.{pair}

-- A key of one byte, its version and its kind.
parse_three : List ℕ → Option ParsedKey
parse_three [] = none
parse_three (u ∷ []) = none
parse_three (u ∷ v ∷ []) = none
parse_three (u ∷ v ∷ d ∷ rest) =
    some (record { user_key = u ∷ []; sequence = v; is_deletion = d == 0 })

first_byte : List ℕ → List ℕ
first_byte [] = []
first_byte (u ∷ rest) = u ∷ []

same_byte : List ℕ → List ℕ → Bool
same_byte [] [] = true
same_byte [] (y ∷ ys) = false
same_byte (x ∷ xs) [] = false
same_byte (x ∷ xs) (y ∷ ys) = x == y

abbrev three_bytes_format : KeyFormat
three_bytes_format = record {
  parse = parse_three;
  extract_user_key = first_byte;
  same_user_key = same_byte;
}

abbrev versions : List Entry
versions = (1 ∷ 9 ∷ 1 ∷ [], 5 ∷ []) ∷ (1 ∷ 8 ∷ 1 ∷ [], 6 ∷ []) ∷ (2 ∷ 7 ∷ 1 ∷ [], 7 ∷ []) ∷ []

versions_kept : count_from three_bytes_format scan_start versions ≡ 2
unfolding count_from count_step parse_three same_byte
versions_kept = refl

abbrev no_frame : ℕ → Page
no_frame = λ n. pair

abbrev new_writer : Writer EvenSplit
new_writer = record {
  policy = record { cur_page_num = 0; cur_page_cap = 2; page_num_max_entry = 1 };
  page_item = 0;
  open_page = none;
  written = [];
}

same_byte_refl : (a : List ℕ) → same_byte a a ≡ true
unfolding same_byte
same_byte_refl [] = refl
same_byte_refl (x ∷ xs) = ground arith

same_byte_sym : (a b : List ℕ) → same_byte a b ≡ true → same_byte b a ≡ true
unfolding same_byte
same_byte_sym [] [] h = refl
same_byte_sym [] (y ∷ ys) h = absurd (cc)
same_byte_sym (x ∷ xs) [] h = absurd (cc)
same_byte_sym (x ∷ xs) (y ∷ ys) h = ground (arith, h)

same_byte_trans :
    (a b c : List ℕ) → same_byte a b ≡ true → same_byte b c ≡ true → same_byte a c ≡ true
unfolding same_byte
same_byte_trans [] [] c h k = k
same_byte_trans [] (y ∷ ys) c h k = absurd (cc)
same_byte_trans (x ∷ xs) [] c h k = absurd (cc)
same_byte_trans (x ∷ xs) (y ∷ ys) [] h k = absurd (cc)
same_byte_trans (x ∷ xs) (y ∷ ys) (z ∷ zs) h k = ground (arith, h, k)

three_bytes-SameKeys : SameKeys three_bytes_format
three_bytes-SameKeys = record {
  same_refl = same_byte_refl;
  same_sym = same_byte_sym;
  same_trans = same_byte_trans;
}

versions-below_max : below_max three_bytes_format versions ≡ true
unfolding below_max parse_three
versions-below_max = refl

scans-kept_example :
    (write_from three_bytes_format even_split no_frame scan_start new_writer versions
      ≡ write_all three_bytes_format even_split no_frame new_writer
          (kept three_bytes_format none versions))
    × (count_from three_bytes_format scan_start versions
        ≡ length (kept three_bytes_format none versions))
scans-kept_example =
    scans-kept three_bytes_format even_split no_frame new_writer versions three_bytes-SameKeys
      versions-below_max

even_init_plan_example :
    (s : EvenSplit) × (lesser : ℕ) × (even_init 272 1000 ≡ some s)
    × (s.cur_page_num ≡ 0)
    × (0 < s.page_num_max_entry)
    × (s.cur_page_cap ≤ 272)
    × (s.page_num_max_entry + lesser ≡ round_up 1000 272)
    × (s.page_num_max_entry * s.cur_page_cap + lesser * (s.cur_page_cap - 1) ≡ 1000)
even_init_plan_example = even_init_plan 272 1000 (omega arith) (omega arith)

even_pages_hold_example :
    (s : EvenSplit) × (even_init 272 1000 ≡ some s)
    × (planned (round_up 1000 272) s ≡ 1000)
    × ((j : ℕ) → (after j s).cur_page_cap ≤ 272)
even_pages_hold_example = even_pages_hold 272 1000 (omega arith) (omega arith)

sound_init-IsSound_example :
    (s : SoundRemedy) × (sound_init 200 1000 150 ≡ some s)
    × IsSound 200 s
    × (s.cur_page_cap + s.non_dup ≡ 1000)
sound_init-IsSound_example =
    sound_init-IsSound 200 1000 150 (omega arith) (omega arith) (omega arith)

abbrev first_drawn : SoundRemedy
first_drawn = record { non_dup = 850; last_two_pages = false; cur_page_cap = 150 }

first_drawn-IsSound : IsSound 200 first_drawn
first_drawn-IsSound = record {
  some_cap = omega arith;
  fits = omega arith;
  rest = λ e. let f : false ≡ true = e in absurd (cc);
}

sound_next-IsSound_example :
    (s' : SoundRemedy) × (sound_next 200 120 first_drawn ≡ some s')
    × IsSound 200 s'
    × (s'.cur_page_cap + s'.non_dup ≡ 850)
sound_next-IsSound_example =
    sound_next-IsSound 200 120 first_drawn first_drawn-IsSound (omega arith) (omega arith)
      (omega arith)
