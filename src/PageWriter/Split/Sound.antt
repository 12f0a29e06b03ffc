-- ===== src/PageWriter/Split/Sound.antt =====
-- src/wot_page_split_policy.h, `SoundRemedySplitPolicy`: the pages get a random number of entries, but
-- for the last two. `GetOnePageCap` draws against doubles, so its draw is an argument, between 1 and
-- `max_cap_`. `none` is a failed assertion.
use aha_adaptive_hotspot_awa.Common.{
  ℕ, ◌+◌, ◌-◌, ◌*◌, ◌/◌, ◌%◌, ◌<◌, ◌≤◌, ◌≡◌, Bool, true, false, ltb, leb, if◌then◌else◌, Option,
  none, some, arith, Bool-cases, inl, inr,
}

-- `non_dup_` counts the entries that no page was given.
pub record SoundRemedy : Type 0 where
  pub non_dup : ℕ
  pub last_two_pages : Bool
  pub cur_page_cap : ℕ

-- Whether the next page is one of the last two, and its entries.
unfoldable pub next_page : ℕ → ℕ → ℕ → Bool × ℕ
next_page max_cap non_dup draw =
    if leb non_dup max_cap
    then (true, non_dup)
    else (if leb non_dup ((3 * max_cap + 1) / 2)
        then (true, non_dup / 2 + (if ltb 0 (non_dup % 2) then 1 else 0))
        else (false, draw))

unfoldable pub sound_init : ℕ → ℕ → ℕ → Option SoundRemedy
sound_init max_cap non_dup draw =
    let (last, cap) = next_page max_cap non_dup draw in
    if leb cap max_cap
    then some (record { non_dup = non_dup - cap; last_two_pages = last; cur_page_cap = cap })
    else none

-- The page behind a full one.
unfoldable pub sound_next : ℕ → ℕ → SoundRemedy → Option SoundRemedy
sound_next max_cap draw s =
    if ltb 0 s.non_dup
    then (if s.last_two_pages
        then (if leb s.non_dup max_cap
            then some (record s { non_dup = 0; cur_page_cap = s.non_dup })
            else none)
        else (let (last, cap) = next_page max_cap s.non_dup draw in
            some (record { non_dup = s.non_dup - cap; last_two_pages = last; cur_page_cap = cap })))
    else none

unfoldable pub sound_should_alloc : ℕ → ℕ → ℕ → SoundRemedy → Option (SoundRemedy × Bool)
sound_should_alloc max_cap draw existing_num s =
    if leb s.cur_page_cap existing_num
    then elim (sound_next max_cap draw s) [ none ↦ none | some s' ↦ some (s', true) ]
    else some (s, false)

-- The page at hand takes between 1 and `max_cap` entries, and on the last two pages the rest fits one
-- page.
pub record IsSound (max_cap : ℕ) (s : SoundRemedy) : Type 0 where
  pub some_cap : 0 < s.cur_page_cap
  pub fits : s.cur_page_cap ≤ max_cap
  pub rest : s.last_two_pages ≡ true → s.non_dup ≤ max_cap

chosen :
    (max_cap n draw : ℕ)
    → 0 < n
    → 0 < draw
    → draw ≤ max_cap
    → (0 < (next_page max_cap n draw).1)
      × ((next_page max_cap n draw).1 ≤ max_cap)
      × ((next_page max_cap n draw).1 ≤ n)
      × ((next_page max_cap n draw).0 ≡ true → n - (next_page max_cap n draw).1 ≤ max_cap)
unfolding next_page
chosen max_cap n draw some_n some_draw small =
    (ground arith, ground arith, ground arith, λ e. ground arith)

-- For a count above 0 and a draw between 1 and the capacity `Init` passes its assertion, plans the
-- first page, and leaves the other entries to the pages that follow.
pub sound_init-IsSound :
    (max_cap n draw : ℕ)
    → 0 < n
    → 0 < draw
    → draw ≤ max_cap
    → (s : SoundRemedy) × (sound_init max_cap n draw ≡ some s)
      × IsSound max_cap s
      × (s.cur_page_cap + s.non_dup ≡ n)
unfolding sound_init
sound_init-IsSound max_cap n draw some_n some_draw small =
    let (pos, le, within, rest) = chosen max_cap n draw some_n some_draw small in
    let cap = (next_page max_cap n draw).1 in
    (
      record {
        non_dup = n - cap;
        last_two_pages = (next_page max_cap n draw).0;
        cur_page_cap = cap;
      },
      ground arith,
      record { some_cap = pos; fits = le; rest = rest },
      omega arith,
    )

last_page :
    (max_cap draw : ℕ) (s : SoundRemedy)
    → 0 < s.non_dup
    → s.last_two_pages ≡ true
    → s.non_dup ≤ max_cap
    → sound_next max_cap draw s
      ≡ some (record { non_dup = 0; last_two_pages = s.last_two_pages; cur_page_cap = s.non_dup })
unfolding sound_next
last_page max_cap draw s more last fits =
    let some_left : ltb 0 s.non_dup ≡ true = ground arith in
    let passes : leb s.non_dup max_cap ≡ true = ground arith in ground arith

drawn_page :
    (max_cap draw : ℕ) (s : SoundRemedy)
    → 0 < s.non_dup
    → s.last_two_pages ≡ false
    → sound_next max_cap draw s
      ≡ some (record {
        non_dup = s.non_dup - (next_page max_cap s.non_dup draw).1;
        last_two_pages = (next_page max_cap s.non_dup draw).0;
        cur_page_cap = (next_page max_cap s.non_dup draw).1;
      })
unfolding sound_next
drawn_page max_cap draw s more early = ground arith

-- While entries are left, the page behind a full one passes the assertions for any draw between 1
-- and the capacity, and takes its entries, at least one, from those left.
pub sound_next-IsSound :
    (max_cap draw : ℕ) (s : SoundRemedy)
    → IsSound max_cap s
    → 0 < s.non_dup
    → 0 < draw
    → draw ≤ max_cap
    → (s' : SoundRemedy) × (sound_next max_cap draw s ≡ some s')
      × IsSound max_cap s'
      × (s'.cur_page_cap + s'.non_dup ≡ s.non_dup)
sound_next-IsSound max_cap draw s sound more some_draw small = elim (Bool-cases s.last_two_pages) [
  | inl last ↦ (
    record { non_dup = 0; last_two_pages = s.last_two_pages; cur_page_cap = s.non_dup },
    last_page max_cap draw s more last (sound.rest last),
    record { some_cap = more; fits = sound.rest last; rest = λ e. omega arith },
    omega arith,
  )
  | inr early ↦
      let (pos, le, within, rest) = chosen max_cap s.non_dup draw more some_draw small in
      let cap = (next_page max_cap s.non_dup draw).1 in
      (
        record {
          non_dup = s.non_dup - cap;
          last_two_pages = (next_page max_cap s.non_dup draw).0;
          cur_page_cap = cap;
        },
        drawn_page max_cap draw s more early,
        record { some_cap = pos; fits = le; rest = rest },
        omega arith,
      )
]
