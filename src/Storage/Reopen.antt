-- ===== src/Storage/Reopen.antt =====
-- What the constructor makes of an existing file.
use red_box_db.Base.{List, arith, some, true, ℕ, ◌<◌, ◌≡◌, ◌≢◌}
use red_box_db.Metadata.{current_version}
use red_box_db.Storage.Size.{Pointers, setup_pointers}
use red_box_db.Storage.Open.{
  Calls, Request, Stored, attached, fits_size, moved, open_manager, pointers_of,
}

abbrev pub AllWork : Calls → Type 0
AllWork c =
    (c.open_works ≡ true)
    × (c.fstat_works ≡ true)
    × (c.ftruncate_works ≡ true)
    × (c.mmap_works ≡ true)

-- A file of the current version and dimension, written under the request `r`.
pub record WrittenAs {F : Type 0} (s : Stored F) (r : Request) : Type 0 where
  pub nonempty : s.size ≢ 0
  pub current : s.contents.version ≡ current_version
  pub same_dimensions : s.contents.dimensions ≡ r.dimensions
  pub at_pointers : s.pointers ≡ pointers_of r

module _ {F : Type 0} (calls : Calls) (zero_row : List F) (s : Stored F) (r : Request) where
  -- A file of fewer than 2^64 bytes that is opened again under the request that it was written under
  -- holds what was stored.
  pub open_manager_again :
      AllWork calls
      → WrittenAs s r
      → fits_size r ≡ true
      → open_manager calls zero_row (some s) r ≡ attached s.contents
  unfolding open_manager pointers_of setup_pointers
  open_manager_again w h fits = ground arith

  -- With another capacity, both of them below 2^31 as an int is, the same file passes every check of the constructor, and is then read at
  -- other offsets.
  pub open_manager_resized :
      (capacity : ℕ)
      → AllWork calls
      → WrittenAs s r
      → capacity < 2147483648
      → r.initial_capacity < 2147483648
      → capacity ≢ r.initial_capacity
      → (p : Pointers) × (open_manager calls zero_row
            (some s)
            (record r { initial_capacity = capacity })
          ≡ moved p)
        × (p.float_block ≢ s.pointers.float_block)
  unfolding open_manager pointers_of setup_pointers
  open_manager_resized capacity w h int old_int ne =
      (pointers_of (record r { initial_capacity = capacity }), ground arith, ground arith)
