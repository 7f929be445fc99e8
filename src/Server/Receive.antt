-- ===== src/Server/Receive.antt =====
-- What `handle_client` of src/server.cpp reads of one command, before it acts.
use red_box_db.Base.{
  List, [], drop, get_or, if◌then◌else◌, leb, ltb, suc, take, zero, ℕ, ◌%◌, ◌*◌, ◌==◌, ◌∷◌,
}
use red_box_db.Server.{Bits, Name, is_valid_db_name, max_db_name_len}
use red_box_db.Server.Wire.{Read, done, le_value, receive}

-- What the code knows of the active database when it reads: there is none, its memory has been
-- freed, or its dimension.
pub data Active : Type 0 where
  absent : Active
  freed : Active
  open_dim : ℕ → Active

-- The commands on the active database that leave the catalog alone, with what was read for them.
pub data Action (F : Type 0) : Type 0 where
  insert_vec : ℕ → List F → Action F
  search_vec : List F → Action F
  delete_id : ℕ → Action F
  update_vec : ℕ → List F → Action F
  insert_auto_vec : List F → Action F
  search_n_vec : ℕ → List F → Action F
  set_probes : ℕ → Action F
  set_hnsw_ef : ℕ → Action F
  list_dbs : Action F
  db_info : Action F
  unknown_cmd : Action F

-- A command with all that was read for it. After `reject_name` the connection goes on, after
-- `hang_up` it does not; `use_freed` stands for a read of freed memory.
pub data Command (F : Type 0) : Type 0 where
  reject_name : Command F
  hang_up : Command F
  use_freed : Command F
  select_db : Name → ℕ → ℕ → Command F
  create_hnsw_db : Name → ℕ → ℕ → ℕ → ℕ → Command F
  drop_db : Command F
  act : Action F → Command F

-- `int vec_byte_size = current_dim * sizeof(float)`; `recv_all` reads nothing for a negative size.
unfoldable pub vec_byte_size : ℕ → ℕ
vec_byte_size dim = if ltb (dim * 4 % 4294967296) 2147483648 then dim * 4 % 4294967296 else 0

module _ {F : Type 0} where
  -- The name, and its checks.
  unfoldable pub read_name : ℕ → (Name → Read (Command F)) → Read (Command F)
  unfolding is_valid_db_name
  read_name name_len next =
      if ltb max_db_name_len name_len
      then done hang_up
      else receive name_len
          (λ db_name. if is_valid_db_name db_name then next db_name else done reject_name)

  unfoldable pub read_select : ℕ → Read (Command F)
  unfolding read_name le_value
  read_select meta = read_name meta λ db_name.
      receive 4 λ dim. receive 4 λ cap. done (select_db db_name (le_value dim) (le_value cap))

  unfoldable pub read_create_hnsw : ℕ → Read (Command F)
  unfolding read_name le_value
  read_create_hnsw meta = read_name meta λ db_name. receive 4 λ dim. receive 4 λ cap. receive 1 λ m.
      receive 2
        λ ef. done (create_hnsw_db db_name (le_value dim) (le_value cap) (le_value m) (le_value ef))

module _ {F : Type 0} ⦃bits : Bits F⦄ where
  -- A vector of `count` floats over the bytes that were read; where they end it is zero.
  unfoldable pub floats : ℕ → List ℕ → List F
  unfolding le_value
  floats zero bs = []
  floats (suc count) bs = bits.of_bits (le_value (take 4 bs)) ∷ floats count (drop 4 bs)

  -- `std::vector<float> vec(current_dim)` throws for a negative int.
  unfoldable pub read_vec : ℕ → (List F → Action F) → Read (Command F)
  unfolding vec_byte_size floats
  read_vec dim next =
      if leb 2147483648 dim
      then done hang_up
      else receive (vec_byte_size dim) (λ bs. done (act (next (floats dim bs))))

  -- The commands that need an active database, by their codes.
  unfoldable pub read_active : ℕ → ℕ → ℕ → Read (Command F)
  unfolding read_vec
  read_active dim cmd meta =
      if cmd == 1
      then read_vec dim (insert_vec meta)
      else if cmd == 2
      then read_vec dim search_vec
      else if cmd == 3
      then done (act (delete_id meta))
      else if cmd == 5
      then read_vec dim (update_vec meta)
      else if cmd == 6
      then read_vec dim insert_auto_vec
      else if cmd == 7
      then read_vec dim (search_n_vec meta)
      else if cmd == 8
      then done drop_db
      else if cmd == 9
      then done (act (set_probes meta))
      else if cmd == 11
      then done (act (set_hnsw_ef meta))
      else if cmd == 12
      then done (act list_dbs)
      else if cmd == 13
      then done (act db_info)
      else done (act unknown_cmd)

  unfoldable pub read_command : Active → ℕ → ℕ → Read (Command F)
  unfolding read_select read_create_hnsw read_active
  read_command active cmd meta =
      if cmd == 4
      then read_select meta
      else if cmd == 10
      then read_create_hnsw meta
      else elim active [
        | absent ↦ done hang_up
        | freed ↦ done use_freed
        | open_dim dim ↦ read_active dim cmd meta
      ]

  -- The header: a byte for the command, and four for its number.
  unfoldable pub read_request : Active → Read (Command F)
  unfolding read_command le_value
  read_request active =
      receive 5 λ header. read_command active (get_or header 0 0) (le_value (drop 1 header))
