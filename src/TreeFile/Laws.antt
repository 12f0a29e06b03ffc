-- ===== src/TreeFile/Laws.antt =====
-- What is read back from the file of a shard.
use aha_adaptive_hotspot_awa.Common.{ℕ, ◌<◌, ◌≡◌, ◌≢◌, some, if◌then◌else◌, arith, fun_ext}
use aha_adaptive_hotspot_awa.TreePage.Layout.{Page}
use aha_adaptive_hotspot_awa.TreeFile.{TreeFile, write_at, set_at, write_page, get_page, clean}

pub set_at_self {ℓ} : {A : Type ℓ} (f : ℕ → A) (i : ℕ) (a : A) → set_at f i a i ≡ a
unfolding set_at
set_at_self f i a = ground arith

pub set_at_other {ℓ} :
    {A : Type ℓ} (f : ℕ → A) (i : ℕ) (a : A) (j : ℕ) → j ≢ i → set_at f i a j ≡ f j
unfolding set_at
set_at_other f i a j ne = ground arith

pub get-write_at_self :
    (i : ℕ) (page : Page) (f : TreeFile)
    → i < f.page_num
    → get_page i (write_at i page f) ≡ some page
unfolding get_page write_at set_at
get-write_at_self i page f h = ground arith

pub get-write_at_other :
    (i j : ℕ) (page page' : Page) (f : TreeFile)
    → j ≢ i
    → get_page j f ≡ some page'
    → get_page j (write_at i page f) ≡ some page'
unfolding get_page write_at set_at
get-write_at_other i j page page' f ne h = ground arith

-- A page whose number was given out reads back from the file as it was written, with its mark
-- cleared, if it was dirty, and else as the file had it; every other page that could be read reads
-- as before.
pub get-write_page :
    (i : ℕ) (page : Page) (f : TreeFile)
    → i < f.page_num
    → (get_page i (write_page i page f).0
        ≡ (if page.is_dirty then some (clean page) else get_page i f))
      × ((j : ℕ) (page' : Page)
          → j ≢ i
          → get_page j f ≡ some page'
          → get_page j (write_page i page f).0 ≡ some page')
unfolding write_page
get-write_page i page f known = (
  ground (arith, get-write_at_self i (clean page) f),
  λ j page' ne h. ground (arith, get-write_at_other i j (clean page) page' f),
)

pub set_at_twice {ℓ} :
    {A : Type ℓ} (f : ℕ → A) (i : ℕ) (a b : A) → set_at (set_at f i a) i b ≡ set_at f i b
unfolding set_at
set_at_twice f i a b = fun_ext (λ j. ground arith)
