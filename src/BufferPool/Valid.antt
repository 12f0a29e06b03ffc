-- ===== src/BufferPool/Valid.antt =====
-- The state of a shard that its calls keep, and what the shard holds for a page: the buffer of a page
-- that is in the pool, and else the page in the file, each with its mark cleared.
use aha_adaptive_hotspot_awa.Common.{
  ℕ, ◌+◌, ◌-◌, ◌/◌, ◌%◌, ◌≤◌, ◌<◌, ◌≡◌, ◌≢◌, refl, length, true, false, Option, none, some, has,
  all_distinct, word_mod, arith, sub32_small,
}
use mathlib.Core.Option.{some-injective}
use aha_adaptive_hotspot_awa.Dict.{find, dict_keys}
use aha_adaptive_hotspot_awa.TreePage.Layout.{Page}
use aha_adaptive_hotspot_awa.TreeFile.{get_page, clean}
use aha_adaptive_hotspot_awa.BufferPool.{Pool, PageHandle, file_offset}

-- The pages of a shard, by their number.
abbrev pub InShard : ℕ → ℕ → Type 0
InShard shard pg = (0 < pg) × (pg < word_mod) × (pg % 16 ≡ shard)

pub record IsPool (shard : ℕ) (p : Pool) : Type 0 where
  pub shards : p.shard_num ≡ 16
  pub small : p.max_num < word_mod
  pub unique : all_distinct (dict_keys p.table) ≡ true
  pub owned : (a : ℕ) (h : PageHandle) → find a p.table ≡ some h → InShard shard a
  pub known :
      (a : ℕ) (h : PageHandle) → find a p.table ≡ some h → file_offset 16 a < p.file.page_num
  pub used : (a : ℕ) (h : PageHandle) → find a p.table ≡ some h → h.page_array_id < p.pages_num
  -- No two pages share a buffer.
  pub apart :
      (a b : ℕ) (h k : PageHandle)
      → find a p.table ≡ some h
      → find b p.table ≡ some k
      → h.page_array_id ≡ k.page_array_id
      → a ≡ b
  -- The buffers in the queue are free, each once.
  pub spare : (i : ℕ) → has i p.recent_evicted ≡ true → i < p.pages_num
  pub unused :
      (a : ℕ) (h : PageHandle)
      → find a p.table ≡ some h
      → has h.page_array_id p.recent_evicted ≡ false
  pub distinct : all_distinct p.recent_evicted ≡ true
  pub counted : p.pages_num ≡ length p.table + length p.recent_evicted
  pub bounded : p.pages_num ≤ p.max_num
  -- The pages of `lru` are those with no reference.
  pub idle :
      (a : ℕ) → has a p.lru ≡ true → (h : PageHandle) × (find a p.table ≡ some h) × (h.refs ≡ 0)
  pub listed : (a : ℕ) (h : PageHandle) → find a p.table ≡ some h → h.refs ≡ 0 → has a p.lru ≡ true
  -- A buffer that is not dirty is as the file has it.
  pub same :
      (a : ℕ) (h : PageHandle)
      → find a p.table ≡ some h
      → (p.pages h.page_array_id).is_dirty ≡ false
      → get_page (file_offset 16 a) p.file ≡ some (p.pages h.page_array_id)

abbrev pub map_clean : Option Page → Option Page
map_clean o = elim o [ none ↦ none | some page ↦ some (clean page) ]

unfoldable pub content : Pool → ℕ → Option Page
content p pg = elim (find pg p.table) [
  | none ↦ map_clean (get_page (file_offset p.shard_num pg) p.file)
  | some h ↦ some (clean (p.pages h.page_array_id))
]

-- Each page of the shard with a content has the same behind a call.
abbrev pub Keeps : ℕ → Pool → Pool → Type 0
Keeps shard p q =
    (pg : ℕ) (c : Page) → InShard shard pg → content p pg ≡ some c → content q pg ≡ some c

pub file_offset_lem : (shard a : ℕ) → InShard shard a → file_offset 16 a ≡ (a - 1) / 16
unfolding file_offset
file_offset_lem shard a own = omega (arith, sub32_small a 1 (omega arith) own.1)

pub file_offset_ne :
    (shard a b : ℕ)
    → InShard shard a
    → InShard shard b
    → a ≢ b
    → file_offset 16 a ≢ file_offset 16 b
file_offset_ne shard a b own own' ne e =
    let u = file_offset_lem shard a own in let v = file_offset_lem shard b own' in ne (omega arith)

-- The content of a page in the pool, and of one in the file.
pub content_in :
    (p : Pool) (pg : ℕ) (h : PageHandle)
    → find pg p.table ≡ some h
    → content p pg ≡ some (clean (p.pages h.page_array_id))
unfolding content
content_in p pg h e = rw (content, e) refl

pub content_out :
    (p : Pool) (pg : ℕ)
    → find pg p.table ≡ none
    → content p pg ≡ map_clean (get_page (file_offset p.shard_num pg) p.file)
unfolding content
content_out p pg e = rw (content, e) refl

pub map_clean-some :
    (o : Option Page) (c : Page)
    → map_clean o ≡ some c
    → (page : Page) × (o ≡ some page) × (clean page ≡ c)
map_clean-some none c e = cc
map_clean-some (some page) c e = (page, refl, some-injective _ _ e)
