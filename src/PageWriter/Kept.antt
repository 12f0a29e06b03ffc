-- ===== src/PageWriter/Kept.antt =====
-- src/util/utils.h, `CountNonDuplicates` and `WriteToPage`: the entries that the two scans keep.
use aha_adaptive_hotspot_awa.Common.{
  ℕ, ◌<◌, ◌≡◌, refl, sym, ap, ◌∙◌, List, [], ◌∷◌, length, Bool, true, false, not, ◌&&◌, ltb,
  if◌then◌else◌, Option, none, some, ◌>>=◌, arith, inl, inr, Bool-cases, Option-cases, fun_ext,
}
use aha_adaptive_hotspot_awa.Leveldb.{Leveldb}
use aha_adaptive_hotspot_awa.TreePage.Layout.{Page}
use aha_adaptive_hotspot_awa.PageWriter.{
  ParsedKey, KeyFormat, Entry, max_sequence, Scan, scan_start, count_parsed, count_step, write_step,
  count_from, SplitPolicy, Writer, write_entry, write_from,
}

-- Has the entry just before this one the same user key?
unfoldable pub repeats_key : KeyFormat → Option ParsedKey → ParsedKey → Bool
repeats_key f none k = false
repeats_key f (some a) k = f.same_user_key k.user_key a.user_key

-- An entry stands, given the key just before it, unless it is a deletion or repeats that user key.
unfoldable pub stands_behind : KeyFormat → Option ParsedKey → List ℕ → Bool
unfolding repeats_key
stands_behind f last key = elim (f.parse key) [
  | none ↦ true
  | some k ↦ not k.is_deletion && not (repeats_key f last k)
]

unfoldable pub kept : KeyFormat → Option ParsedKey → List Entry → List Entry
unfolding stands_behind
kept f last [] = []
kept f last (e ∷ es) =
    let rest = kept f (f.parse e.0) es in if stands_behind f last e.0 then e ∷ rest else rest

-- `kMaxSequenceNumber` is no entry's number.
unfoldable pub below_max : KeyFormat → List Entry → Bool
below_max f [] = true
below_max f (e ∷ es) =
    (elim (f.parse e.0) [ none ↦ true | some k ↦ ltb k.sequence max_sequence ]) && below_max f es

-- The comparator's test of user keys is an equivalence.
pub record SameKeys (f : KeyFormat) : Type 0 where
  pub same_refl : (a : List ℕ) → f.same_user_key a a ≡ true
  pub same_sym : (a b : List ℕ) → f.same_user_key a b ≡ true → f.same_user_key b a ≡ true
  pub same_trans :
      (a b c : List ℕ)
      → f.same_user_key a b ≡ true
      → f.same_user_key b c ≡ true
      → f.same_user_key a c ≡ true

module _ (f : KeyFormat) (same : SameKeys f) where
  -- What a scan's variables say of the key just before.
  data Tracks (s : Scan) : Option ParsedKey → Type 0 where
    afresh : s.current ≡ none → Tracks s none
    behind_key :
        {a : ParsedKey}
        → (u : List ℕ) → s.current ≡ some u
        → f.same_user_key a.user_key u ≡ true
        → s.last_sequence ≡ a.sequence
        → a.sequence < max_sequence
        → Tracks s (some a)

  -- The first key of a run of equal ones is compared with, which comes to the same.
  same_run :
      (a k u : List ℕ) → f.same_user_key a u ≡ true → f.same_user_key k u ≡ f.same_user_key k a
  same_run a k u e = elim (Bool-cases (f.same_user_key k a)) [
    | inl y ↦ same.same_trans k a u y e ∙ sym y
    | inr n ↦ elim (Bool-cases (f.same_user_key k u)) [
      | inr z ↦ z ∙ sym n
      | inl z ↦ let y = same.same_trans k u a z (same.same_sym a u e) in absurd (cc)
    ]
  ]

  parsed_lem :
      (s : Scan) (last : Option ParsedKey) (k : ParsedKey)
      → Tracks s last
      → k.sequence < max_sequence
      → ((count_parsed f s k).1 ≡ not (not k.is_deletion && not (repeats_key f last k)))
        × Tracks (count_parsed f s k).0 (some k)
  unfolding repeats_key
  parsed_lem s none k (afresh e) small = (
    rw e (ground arith),
    behind_key k.user_key (rw e refl) (same.same_refl k.user_key) refl small,
  )
  parsed_lem s (some a) k (behind_key u e run number bound) small =
      let again = same_run a.user_key k.user_key u run in
      elim (Bool-cases (f.same_user_key k.user_key a.user_key)) [
        | inl y ↦ (
          rw (e, again, y, number) (ground arith),
          behind_key u (rw (e, again, y) refl) (again ∙ y) refl small,
        )
        | inr n ↦ (
          rw (e, again, n) (ground arith),
          behind_key k.user_key (rw (e, again, n) refl) (same.same_refl k.user_key) refl small,
        )
      ]

  steps_agree : (s : Scan) (key : List ℕ) → write_step f s key ≡ count_step f s key
  unfolding write_step count_step
  steps_agree s key = refl

  step_lem :
      (s : Scan) (last : Option ParsedKey) (e : Entry) (es : List Entry)
      → Tracks s last
      → below_max f (e ∷ es) ≡ true
      → ((count_step f s e.0).1 ≡ not (stands_behind f last e.0))
        × Tracks (count_step f s e.0).0 (f.parse e.0)
        × (below_max f es ≡ true)
  unfolding count_step stands_behind below_max
  step_lem s last e es tracks small = elim (Option-cases (f.parse e.0)) [
    | inl bad ↦ (
      rw (count_step, stands_behind, bad) refl,
      rw (count_step, bad) (afresh refl),
      rw (below_max, bad) at small,
    )
    | inr (k, good) ↦
        let both : (ltb k.sequence max_sequence && below_max f es) ≡ true =
          rw (below_max, good) at small in
        let (drops, next) = parsed_lem s last k tracks (ground (arith, both)) in
        (
          rw (count_step, stands_behind, good) drops,
          rw (count_step, good) next,
          ground (arith, both),
        )
  ]

  count_from-kept :
      (s : Scan) (last : Option ParsedKey) (es : List Entry)
      → Tracks s last
      → below_max f es ≡ true
      → count_from f s es ≡ length (kept f last es)
  unfolding count_from kept
  count_from-kept s last [] tracks small = refl
  count_from-kept s last (e ∷ es) tracks small =
      let (drops, next, small') = step_lem s last e es tracks small in
      let rest = count_from-kept (count_step f s e.0).0 (f.parse e.0) es next small' in
      elim (Bool-cases (stands_behind f last e.0)) [
        | inl d ↦ rw (drops, d, rest) (omega arith)
        | inr d ↦ rw (drops, d, rest) refl
      ]

module _ ⦃L : Leveldb⦄ {S : Type 0} (f : KeyFormat) (p : SplitPolicy S) (frames : ℕ → Page) where
  -- Every entry of a list written, with no scan.
  unfoldable pub write_all : Writer S → List Entry → Option (Writer S)
  write_all w [] = some w
  write_all w (e ∷ es) = write_entry f p frames w e >>= λ w'. write_all w' es

  write_from-kept :
      (same : SameKeys f) (s : Scan) (last : Option ParsedKey) (w : Writer S) (es : List Entry)
      → Tracks f same s last
      → below_max f es ≡ true
      → write_from f p frames s w es ≡ write_all w (kept f last es)
  unfolding write_from kept write_all
  write_from-kept same s last w [] tracks small = refl
  write_from-kept same s last w (e ∷ es) tracks small =
      let (drops, next, small') = step_lem f same s last e es tracks small in
      let rest = λ (w' : Writer S).
        write_from-kept same (count_step f s e.0).0 (f.parse e.0) w' es next small' in
      let agree = steps_agree f same s e.0 in
      elim (Bool-cases (stands_behind f last e.0)) [
        | inl d ↦ rw (agree, drops, d) (ap (λ k. write_entry f p frames w e >>= k) (fun_ext rest))
        | inr d ↦ rw (agree, drops, d) (rest w)
      ]

  -- Where the comparator's test of user keys is an equivalence and no entry has the largest sequence
  -- number, the second scan writes, in their order, the entries whose key does not parse, and those
  -- that are no deletion and whose user key the entry just before them does not have. The count that
  -- the split policy gets from the first scan is their number.
  pub scans-kept :
      (w : Writer S) (es : List Entry)
      → SameKeys f
      → below_max f es ≡ true
      → (write_from f p frames scan_start w es ≡ write_all w (kept f none es))
        × (count_from f scan_start es ≡ length (kept f none es))
  scans-kept w es same small = (
    write_from-kept same scan_start none w es (afresh refl) small,
    count_from-kept f same scan_start none es (afresh refl) small,
  )
