-- ===== src/Storage/Access.antt =====
-- The accessors: what succeeds, what throws, and what a write changes.
use red_box_db.Base.{List, arith, take_all, ℕ, ◌+◌, ◌<◌, ◌≡◌, ◌≤◌}
use red_box_db.Storage.{
  Manager, add_vector, get_count, get_float_ptr, get_id, index_out_of_bounds, ok, throw,
}

module _ {F : Type 0} where
  pub record Added (m : Manager F) (id : ℕ) (vec : List F) (m' : Manager F) : Type 0 where
    pub within : get_count m' ≤ m'.max_capacity
    pub counted : get_count m' ≡ get_count m + 1
    pub new_id : get_id m' (get_count m) ≡ ok id
    pub new_row : get_float_ptr m' (get_count m) ≡ ok vec
    pub old_ids : (i : ℕ) → i < get_count m → get_id m' i ≡ get_id m i
    pub old_rows : (i : ℕ) → i < get_count m → get_float_ptr m' i ≡ get_float_ptr m i
    pub beyond : (i : ℕ) → get_count m < i → get_id m' i ≡ throw index_out_of_bounds

  -- A vector that `add_vector` accepts is read back at the first free slot, under its id; the slots
  -- before it read as they did, the slots after it still throw, and the count, one higher, is within
  -- the capacity.
  pub add_vector-Added :
      (m m' : Manager F) (id : ℕ) (vec : List F) (cluster : ℕ)
      → add_vector m id vec cluster ≡ ok m'
      → Added m id vec m'
  unfolding add_vector get_count get_id get_float_ptr
  add_vector-Added m m' id vec cluster h = record {
    within = ground arith;
    counted = ground arith;
    new_id = ground arith;
    new_row = ground (arith, take_all m.dimensions vec);
    old_ids = λ i lt. ground arith;
    old_rows = λ i lt. ground arith;
    beyond = λ i lt. ground arith;
  }

  -- Below the count the getters read the blocks; the engine's unchecked reads stand for such calls.
  pub get_id_below : (m : Manager F) (i : ℕ) → i < m.vector_count → get_id m i ≡ ok (m.id_block i)
  unfolding get_id
  get_id_below m i h = ground arith
