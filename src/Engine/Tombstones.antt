-- ===== src/Engine/Tombstones.antt =====
-- The tombstone file: `load_tombstones`, `append_tombstone`, `compact_tombstones` and `remove`.
use red_box_db.Base.{
  Bool, List, Option, [], contains, false, if◌then◌else◌, insert_id, length, ltb, none, not, set,
  some, true, update_map, ℕ, ◌&&◌, ◌++◌, ◌+◌, ◌∷◌,
}
use red_box_db.Engine.{Engine, tombstone_compact_slack}

-- What the file system answers: whether the file opens for appending, whether the temporary file
-- opens, whether the old file can be removed, and whether the temporary one can be renamed.
pub record DiskCalls : Type 0 where
  pub append_opens : Bool
  pub tmp_opens : Bool
  pub old_removes : Bool
  pub rename_works : Bool

-- The set and the count that reading the entries one after another gives.
unfoldable pub read_entries : List ℕ → List ℕ → ℕ → List ℕ × ℕ
unfolding insert_id
read_entries [] ids n = (ids, n)
read_entries (id ∷ rest) ids n = read_entries rest (insert_id id ids) (n + 1)

abbrev pub entries_of : Option (List ℕ) → List ℕ
entries_of none = []
entries_of (some xs) = xs

abbrev pub file_exists : Option (List ℕ) → Bool
file_exists none = false
file_exists (some entries) = true

module _ {F G : Type 0} where
  unfoldable pub load_tombstones : Engine F G → Engine F G
  unfolding read_entries
  load_tombstones e = elim e.tombstone_file [
    | none ↦ e
    | some entries ↦
        let (ids, n) = read_entries entries e.deleted_ids e.tombstone_entries_on_disk in
        record e { deleted_ids = ids; tombstone_entries_on_disk = n }
  ]

  -- Opening for appending creates the file.
  unfoldable pub append_tombstone : Engine F G → ℕ → DiskCalls → Engine F G
  append_tombstone e id calls =
      if calls.append_opens
      then record e {
        tombstone_file = some (entries_of e.tombstone_file ++ id ∷ []);
        tombstone_entries_on_disk = e.tombstone_entries_on_disk + 1;
      }
      else e

  -- The old file is removed before the new one is renamed. If that fails, `std::filesystem::remove`
  -- throws, and nothing has changed.
  unfoldable pub compact_tombstones : Engine F G → DiskCalls → Engine F G
  compact_tombstones e calls =
      if not calls.tmp_opens
      then e
      else if file_exists e.tombstone_file && not calls.old_removes
      then e
      else if not calls.rename_works
      then record e { tombstone_file = none }
      else record e {
        tombstone_file = some e.deleted_ids;
        tombstone_entries_on_disk = length e.deleted_ids;
      }

  -- The flag, the index and the set.
  unfoldable pub mark_deleted : Engine F G → ℕ → ℕ → Engine F G
  unfolding insert_id
  mark_deleted e id i = record e {
    deleted_flags = set e.deleted_flags i true;
    id_to_index = update_map e.id_to_index id none;
    deleted_ids = insert_id id e.deleted_ids;
  }

  unfoldable pub compact_if_due : Engine F G → DiskCalls → Engine F G
  unfolding compact_tombstones
  compact_if_due e calls =
      if ltb (length e.deleted_ids + tombstone_compact_slack) e.tombstone_entries_on_disk
      then compact_tombstones e calls
      else e

  -- Whether the compaction throws.
  unfoldable pub compaction_throws : Engine F G → DiskCalls → Bool
  compaction_throws e calls =
      ltb (length e.deleted_ids + tombstone_compact_slack) e.tombstone_entries_on_disk
      && calls.tmp_opens
      && file_exists e.tombstone_file
      && not calls.old_removes

  -- There is no answer if the compaction throws.
  unfoldable pub remove : Engine F G → ℕ → DiskCalls → Engine F G × Option Bool
  unfolding mark_deleted append_tombstone compact_if_due compaction_throws
  remove e id calls =
      if contains e.deleted_ids id then (e, some false) else elim (e.id_to_index id) [
        | none ↦ (e, some false)
        | some i ↦
            let logged = append_tombstone (mark_deleted e id i) id calls in
            (
              compact_if_due logged calls,
              if compaction_throws logged calls then none else some true,
            )
      ]
