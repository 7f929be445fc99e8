-- ===== src/Engine/Open.antt =====
-- The constructors of `RedBoxVector`, from an attached file and its tombstones.
use red_box_db.Base.{
  Bool, List, Option, [], contains, false, for_range, if◌then◌else◌, ltb, none, replicate, set,
  some, true, update_map, ℕ,
}
use red_box_db.Metadata.{is_hnsw}
use red_box_db.Storage.{Manager}
use red_box_db.Engine.{Engine}
use red_box_db.Engine.Tombstones.{load_tombstones}
use red_box_db.Engine.Insert.{push_slot}

-- What the constructors' loop over the stored slots fills.
pub record Loaded : Type 0 where
  pub flags : List Bool
  pub index : ℕ → Option ℕ
  pub clusters : ℕ → List ℕ

module _ {F : Type 0} where
  -- One slot. `k` is the number of clusters of an IVF database whose clusters are initialised, and
  -- 0 otherwise, which leaves the cluster lists alone.
  unfoldable pub load_slot : Manager F → List ℕ → ℕ → ℕ → Loaded → Loaded
  load_slot m deleted k i s =
      if contains deleted (m.id_block i) then record s { flags = set s.flags i true } else record {
        flags = s.flags;
        index = update_map s.index (m.id_block i) (some i);
        clusters =
            if ltb (m.cluster_block i) k
            then push_slot s.clusters (m.cluster_block i) i
            else s.clusters;
      }

  unfoldable pub load_slots : Manager F → List ℕ → ℕ → Loaded
  unfolding load_slot for_range
  load_slots m deleted k =
      for_range m.vector_count 0 (load_slot m deleted k)
        (record { flags = replicate m.vector_count false; index = λ _. none; clusters = λ _. [] })

module _ {F G : Type 0} where
  abbrev pub bare : Manager F → Option (List ℕ) → ℕ → Bool → G → Engine F G
  bare m file dim use_avx2 g = record {
    dimension = dim;
    manager = m;
    tombstone_file = file;
    deleted_ids = [];
    tombstone_entries_on_disk = 0;
    deleted_flags = [];
    id_to_index = λ _. none;
    cluster_index = λ _. [];
    graph = g;
    use_avx2 = use_avx2;
  }

  abbrev pub with_slots : Engine F G → ℕ → Engine F G
  with_slots e k =
      let s = load_slots e.manager e.deleted_ids k in
      record e { deleted_flags = s.flags; id_to_index = s.index; cluster_index = s.clusters }

  -- The IVF constructor; `k` is its argument, not the header's field.
  unfoldable pub open_ivf : Manager F → Option (List ℕ) → ℕ → ℕ → Bool → G → Engine F G
  unfolding load_tombstones load_slots
  open_ivf m file dim k use_avx2 g =
      with_slots (load_tombstones (bare m file dim use_avx2 g)) (if m.is_initialized then k else 0)

  -- The HNSW constructor.
  unfoldable pub open_hnsw : Manager F → Option (List ℕ) → ℕ → Bool → G → Engine F G
  unfolding load_tombstones load_slots
  open_hnsw m file dim use_avx2 g = with_slots (load_tombstones (bare m file dim use_avx2 g)) 0

  -- Either constructor.
  unfoldable pub reopen : Manager F → Option (List ℕ) → ℕ → ℕ → Bool → G → Engine F G
  unfolding open_ivf open_hnsw is_hnsw
  reopen m file dim k use_avx2 g =
      if is_hnsw m.index_type
      then open_hnsw m file dim use_avx2 g
      else open_ivf m file dim k use_avx2 g
