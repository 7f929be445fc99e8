-- ===== src/Engine/Store.antt =====
-- The invariant that ties slots, flags and the two hash containers together.
use red_box_db.Base.{
  Bool, List, Option-cases, arith, contains, contains-erase_id, erase_id, false, if◌then◌else◌, inl,
  inr, length, none, some, suc, true, update_map, zero, ℕ, ◌+◌, ◌<◌, ◌==◌, ◌≡◌, ◌≢◌, ◌≤◌, ◌⊎◌,
}
use red_box_db.Graph.{flag}
use red_box_db.Engine.{Engine, contents}
use red_box_db.Engine.Insert.{find_old_slot}
use red_box_db.Engine.Valid.{SameStore}

module _ {F G : Type 0} where
  -- The slot i holds the vector of the id.
  pub record Holds (e : Engine F G) (id i : ℕ) : Type 0 where
    pub used : i < e.manager.vector_count
    pub named : e.manager.id_block i ≡ id
    pub live : flag e.deleted_flags i ≡ false
    pub undeleted : contains e.deleted_ids id ≡ false

  pub record IsStore (e : Engine F G) : Type 0 where
    pub within : e.manager.vector_count ≤ e.manager.max_capacity
    pub flagged : e.manager.vector_count ≤ length e.deleted_flags
    pub sized : e.manager.dimensions ≡ e.dimension
    pub rows : (i : ℕ) → i < e.manager.vector_count → length (e.manager.float_block i) ≡ e.dimension
    pub indexed : (id i : ℕ) → e.id_to_index id ≡ some i → Holds e id i
    pub unused : (i : ℕ) → e.manager.vector_count ≤ i → flag e.deleted_flags i ≡ false

  pub SameStore-IsStore : {e e' : Engine F G} → SameStore e e' → IsStore e → IsStore e'
  SameStore-IsStore s h = record {
    within = ground arith;
    flagged = ground arith;
    sized = ground arith;
    rows = λ i lt. ground (arith, h.rows i);
    indexed = λ id i eq. ground (arith, h.indexed id i);
    unused = λ i le. ground (arith, h.unused i);
  }

  pub SameStore-contents :
      {e e' : Engine F G} → SameStore e e' → (id : ℕ) → contents e' id ≡ contents e id
  unfolding contents
  SameStore-contents s id = ground arith

  -- Taking an id out of the deleted set.
  pub undelete-IsStore :
      (e : Engine F G) (id : ℕ)
      → IsStore e
      → IsStore (record e { deleted_ids = erase_id id e.deleted_ids })
  undelete-IsStore e id h = record {
    within = h.within;
    flagged = h.flagged;
    sized = h.sized;
    rows = h.rows;
    indexed = λ j i eq. ground (arith, h.indexed j i, contains-erase_id id j e.deleted_ids);
    unused = h.unused;
  }

  -- The slot of an id is its own.
  pub Holds-unique : (e : Engine F G) {j k i : ℕ} → Holds e j i → Holds e k i → j ≡ k
  Holds-unique e a b = ground arith

pub find_old_slot-found :
    (rounds i : ℕ) (flags : List Bool) (ids : ℕ → ℕ) (id slot : ℕ)
    → find_old_slot rounds i flags ids id ≡ some slot
    → (slot < i + rounds) × (flag flags slot ≡ true) × (ids slot ≡ id)
unfolding find_old_slot
find_old_slot-found zero i flags ids id slot h = cc
find_old_slot-found (suc rounds) i flags ids id slot h =
    ground (arith, find_old_slot-found rounds (i + 1) flags ids id slot)

pub find_old_slot-none :
    (rounds i : ℕ) (flags : List Bool) (ids : ℕ → ℕ) (id slot : ℕ)
    → find_old_slot rounds i flags ids id ≡ none
    → i ≤ slot
    → slot < i + rounds
    → flag flags slot ≡ true
    → ids slot ≢ id
unfolding find_old_slot
find_old_slot-none zero i flags ids id slot h le lt f = absurd (omega arith)
find_old_slot-none (suc rounds) i flags ids id slot h le lt f =
    ground (arith, find_old_slot-none rounds (i + 1) flags ids id slot)

module _ {F G : Type 0} where
  -- The engine after its vector was written to a slot that becomes the slot of the id.
  pub record Placed (e e' : Engine F G) (id slot : ℕ) (vec : List F) : Type 0 where
    pub count : e.manager.vector_count ≤ e'.manager.vector_count
    pub bounded : e'.manager.vector_count ≤ e'.manager.max_capacity
    pub room : e'.manager.vector_count ≤ length e'.deleted_flags
    pub new : slot < e'.manager.vector_count
    pub only : (i : ℕ) → i < e'.manager.vector_count → (i < e.manager.vector_count) ⊎ (i ≡ slot)
    pub dims : e'.manager.dimensions ≡ e.manager.dimensions
    pub dim : e'.dimension ≡ e.dimension
    pub row : (i : ℕ) → e'.manager.float_block i ≡ update_map e.manager.float_block slot vec i
    pub ids : (i : ℕ) → e'.manager.id_block i ≡ update_map e.manager.id_block slot id i
    pub flags : (i : ℕ) → flag e'.deleted_flags i ≡ update_map (flag e.deleted_flags) slot false i
    pub index : (j : ℕ) → e'.id_to_index j ≡ update_map e.id_to_index id (some slot) j
    pub deleted : e'.deleted_ids ≡ e.deleted_ids

  -- A slot that is free, or whose vector is deleted.
  abbrev pub IsFree : Engine F G → ℕ → ℕ → Type 0
  IsFree e id slot =
      (e.manager.vector_count ≤ slot)
      ⊎ ((flag e.deleted_flags slot ≡ true) × (e.manager.id_block slot ≡ id))

  free-not-held :
      (e : Engine F G) (id slot j : ℕ) → IsStore e → IsFree e id slot → e.id_to_index j ≢ some slot
  free-not-held e id slot j h f eq = ground (arith, h.indexed j slot eq, f)

  pub Placed-IsStore :
      (e e' : Engine F G) (id slot : ℕ) (vec : List F)
      → IsStore e
      → IsFree e id slot
      → contains e.deleted_ids id ≡ false
      → length vec ≡ e.dimension
      → Placed e e' id slot vec
      → IsStore e'
  Placed-IsStore e e' id slot vec h f d l p = record {
    within = p.bounded;
    flagged = p.room;
    sized = ground arith;
    rows = λ i lt. ground (arith, p.row i, p.only i lt, h.rows i);
    indexed = λ j i eq.
        ground (arith, p.index j, p.ids i, p.flags i, h.indexed j i, free-not-held e id slot j h f);
    unused = λ i le. ground (arith, p.flags i, h.unused i);
  }

  -- After the write the id reads as the vector, and every other id as before.
  pub contents-Placed :
      (e e' : Engine F G) (id slot : ℕ) (vec : List F)
      → IsStore e
      → IsFree e id slot
      → Placed e e' id slot vec
      → (j : ℕ) → contents e' j ≡ (if id == j then some vec else contents e j)
  unfolding contents
  contents-Placed e e' id slot vec h f p j = elim (Option-cases (e.id_to_index j)) [
    | inl e0 ↦ ground (arith, p.index j, p.row slot)
    | inr (i, e1) ↦ ground (arith, p.index j, p.row slot, p.row i, free-not-held e id slot j h f)
  ]
