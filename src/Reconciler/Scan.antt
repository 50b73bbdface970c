-- ===== src/Reconciler/Scan.antt =====
-- One scan of a pass: the rows of its query, and the cursor that it leaves.
use grok_bot_v.Prelude.{
  ℕ, Bool, true, ◌&&◌, Option, none, some, List, [], ◌∷◌, if◌then◌else◌, ◌==◌, keep, take, length,
}
use grok_bot_v.Reconciler.Keys.{Key, precedes}

module _ {A : Type 0} (key : A → Key) where
  abbrev pub insert_by_key : A → List A → List A
  insert_by_key x [] = x ∷ []
  insert_by_key x (y ∷ ys) = if precedes (key x) (key y) then x ∷ y ∷ ys else y ∷ insert_by_key x ys

  abbrev pub sort_by_key : List A → List A
  sort_by_key [] = []
  sort_by_key (x ∷ xs) = insert_by_key x (sort_by_key xs)

  abbrev pub after_cursor : Option Key → A → Bool
  after_cursor none x = true
  after_cursor (some cursor) x = precedes cursor (key x)

  abbrev pub scanned : (A → Bool) → Option Key → A → Bool
  scanned due cursor x = due x && after_cursor cursor x

  -- The first rows, up to the size of a batch, that are due and come after the cursor.
  unfoldable pub scan_rows : ℕ → (A → Bool) → Option Key → List A → List A
  scan_rows size due cursor rows = take size (sort_by_key (keep (scanned due cursor) rows))

  abbrev pub last_key : Option Key → List A → Option Key
  last_key k [] = k
  last_key k (x ∷ xs) = last_key (some (key x)) xs

  -- A full batch leaves the cursor at its last row, and any other starts over.
  unfoldable pub next_cursor : ℕ → List A → Option Key
  next_cursor size rows = if length rows == size then last_key none rows else none
