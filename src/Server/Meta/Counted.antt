-- ===== src/Server/Meta/Counted.antt =====
-- A command of src/server.cpp on a database leaves its row in the metadata store with the counts of the
-- database, and the other rows alone.
use red_box_db.Base.{Bool, none, true, false, List, Option, arith, if_elim, refl, some, ℕ, ◌≡◌, ◌≢◌}
use red_box_db.Floats.{Double, Float}
use red_box_db.Cluster.{Draws}
use red_box_db.Graph.{GraphIndex}
use red_box_db.Engine.{Engine, get_count, get_next_id, set_hnsw_ef_search, set_num_probes, update}
use red_box_db.Engine.Insert.{insert, insert_auto}
use red_box_db.Storage
use red_box_db.Storage.{next_id, put_row}
use red_box_db.MetadataStore.{Conversions, Row, Table, to_long}
use red_box_db.MetadataStore.Statements.{list_databases, log_operation, update_counts}
use red_box_db.MetadataStore.Listed.{bind-some}
use red_box_db.Server.{Env, Name}
use red_box_db.Server.Receive.{
  Action, db_info, delete_id, insert_auto_vec, insert_vec, list_dbs, search_n_vec, search_vec,
  set_hnsw_ef, set_probes, unknown_cmd, update_vec,
}
use red_box_db.Server.Serve.{act_throws, one, perform, yes_or_no, zero_char}
use red_box_db.Server.Meta.{
  after_removal, count_and_log, count_row, delete_op, insert_auto_op, insert_op, perform_meta,
  search_op, update_op,
}
use red_box_db.Engine.Tombstones.{DiskCalls, remove}

module _ {F G : Type 0} where
  -- The counts that the row has are those of the database.
  abbrev pub Counts : Row → Engine F G → Type 0
  Counts row e =
      (row.vector_count ≡ to_long e.manager.vector_count)
      × (row.next_id ≡ to_long e.manager.next_id)

  abbrev SameCounts : Engine F G → Engine F G → Type 0
  SameCounts e e' =
      (e'.manager.vector_count ≡ e.manager.vector_count) × (e'.manager.next_id ≡ e.manager.next_id)

module _ {T : Type 0} ⦃table : Table T⦄ where
  select-log_operation :
      (name op n : Name) (id : ℕ) (t : T)
      → table.select n (log_operation name op id t) ≡ table.select n t
  unfolding log_operation
  select-log_operation name op n id t = table.select-log name n op (to_long id) t

module _ {F G T : Type 0} ⦃table : Table T⦄ where
  -- The row of the name follows its database from e to e', and no other row changes.
  pub record IsCounted (name : Name) (e e' : Engine F G) (t t' : T) : Type 0 where
    pub row :
        (r : Row)
        → table.select name t ≡ some r
        → Counts r e
        → (r' : Row) × (table.select name t' ≡ some r') × Counts r' e'
    pub others : (n : Name) → n ≢ name → table.select n t' ≡ table.select n t

  same-IsCounted :
      (name : Name) (e e' : Engine F G) (t t' : T)
      → SameCounts e e'
      → ((n : Name) → table.select n t' ≡ table.select n t)
      → IsCounted name e e' t t'
  same-IsCounted name e e' t t' counts rows = record {
    row = λ r at c. (r, ground (arith, rows name, at), ground (arith, c, counts));
    others = λ n ne. rows n;
  }

  -- A command that leaves the store as it is.
  unmoved :
      (name : Name) (e e' : Engine F G) (t t' : T) (answer out : List ℕ)
      → SameCounts e e'
      → ◌≡◌ {A = Option (List ℕ × T)} (some (answer, t)) (some (out, t'))
      → IsCounted name e e' t t'
  unmoved name e e' t t' answer out counts made =
      let same : t ≡ t' = ground (arith, made) in
      rw (← same) (same-IsCounted name e e' t t counts (λ n. refl))

  logged-IsCounted :
      (name op : List ℕ) (e e' : Engine F G) (id : ℕ) (t t' : T) (answer out : List ℕ)
      → SameCounts e e'
      → ◌≡◌ {A = Option (List ℕ × T)} (some (answer, log_operation name op id t)) (some (out, t'))
      → IsCounted name e e' t t'
  logged-IsCounted name op e e' id t t' answer out counts made =
      let same : log_operation name op id t ≡ t' = ground (arith, made) in
      rw (← same) (
        same-IsCounted name e e' t (log_operation name op id t) counts
          (λ n. select-log_operation name op n id t))

  count_row-IsCounted :
      (name : Name) (e e' : Engine F G) (t t' : T)
      → count_row name e' t ≡ some t'
      → IsCounted name e e' t t'
  unfolding count_row update_counts
  count_row-IsCounted name e e' t t' made =
      let count = to_long (get_count e') in
      let next = to_long (get_next_id e') in
      record {
        row = λ r at c. (
          record r { vector_count = count; next_id = next },
          table.select-update_counts name count next r t t' made at,
          unfold get_count Storage.get_count get_next_id in (refl, refl),
        );
        others = λ n ne. table.select-update_counts_other name n count next t t' made ne;
      }

  count_and_log-IsCounted :
      (name op answer out : List ℕ) (e e' : Engine F G) (id : ℕ) (t t' : T)
      → count_and_log name e' op id answer t ≡ some (out, t')
      → IsCounted name e e' t t'
  unfolding count_and_log
  count_and_log-IsCounted name op answer out e e' id t t' made =
      let (u, counted, logged) = bind-some (count_row name e' t) _ (out, t') made in
      let same : log_operation name op id u ≡ t' = ground (arith, logged) in
      let h = count_row-IsCounted name e e' t u counted in
      let rows = λ (n : Name). select-log_operation name op n id u in
      rw (← same) (record {
        row =
            λ r at c. let (r', at', c') = h.row r at c in (r', ground (arith, rows name, at'), c');
        others = λ n ne. ground (arith, rows n, h.others n ne);
      })

module _ {F G : Type 0} ⦃fl : Float F⦄ ⦃db : Double F⦄ ⦃draws : Draws F⦄
    ⦃graph : GraphIndex F G⦄ where
  remove-counts : (e : Engine F G) (id : ℕ) (calls : DiskCalls) → SameCounts e (remove e id calls).0
  unfolding remove
  remove-counts e id calls = ground arith

  update-counts : (e : Engine F G) (id : ℕ) (vec : List F) → SameCounts e (update e id vec).0
  unfolding update put_row
  update-counts e id vec = ground arith

  probes-counts :
      (env : Env G) (e : Engine F G) (n : ℕ) → SameCounts e (perform env e (set_probes n)).0
  unfolding perform set_num_probes
  probes-counts env e n = ground arith

  ef-counts :
      (env : Env G) (e : Engine F G) (n : ℕ) → SameCounts e (perform env e (set_hnsw_ef n)).0
  unfolding perform set_hnsw_ef_search
  ef-counts env e n = (refl, refl)

module _ {F G T : Type 0} ⦃fl : Float F⦄ ⦃db : Double F⦄ ⦃draws : Draws F⦄ ⦃graph : GraphIndex F G⦄
    ⦃table : Table T⦄ ⦃conv : Conversions⦄ where
  after_removal-IsCounted :
      (name : Name) (e e' : Engine F G) (id : ℕ) (success : Option Bool) (t t' : T) (out : List ℕ)
      → SameCounts e e'
      → after_removal name e' id success t ≡ some (out, t')
      → IsCounted name e e' t t'
  after_removal-IsCounted name e e' id none t t' out same made = cc
  after_removal-IsCounted name e e' id (some true) t t' out same made =
      count_and_log-IsCounted name delete_op one out e e' id t t' made
  after_removal-IsCounted name e e' id (some false) t t' out same made =
      unmoved name e e' t t' zero_char out same made

  -- A removal that throws has not moved the counts.
  pub thrown-IsCounted :
      (env : Env G) (name : Name) (e : Engine F G) (a : Action F) (t : T)
      → act_throws env e a ≡ true
      → IsCounted name e (perform_meta env name e a t).0 t t
  unfolding perform_meta
  thrown-IsCounted env name e (insert_vec id vec) t thrown = cc
  thrown-IsCounted env name e (search_vec query) t thrown = cc
  thrown-IsCounted env name e (delete_id id) t thrown =
      unmoved name e (remove e id env.disk).0 t t zero_char zero_char (remove-counts e id env.disk)
        refl
  thrown-IsCounted env name e (update_vec id vec) t thrown = cc
  thrown-IsCounted env name e (insert_auto_vec vec) t thrown = cc
  thrown-IsCounted env name e (search_n_vec n query) t thrown = cc
  thrown-IsCounted env name e (set_probes n) t thrown = cc
  thrown-IsCounted env name e (set_hnsw_ef n) t thrown = cc
  thrown-IsCounted env name e list_dbs t thrown = cc
  thrown-IsCounted env name e db_info t thrown = cc
  thrown-IsCounted env name e unknown_cmd t thrown = cc

  pub perform_meta-IsCounted :
      (env : Env G) (name : Name) (e : Engine F G) (a : Action F) (t t' : T) (out : List ℕ)
      → (perform_meta env name e a t).1 ≡ some (out, t')
      → IsCounted name e (perform_meta env name e a t).0 t t'
  unfolding perform_meta
  perform_meta-IsCounted env name e (insert_vec id vec) t t' out made =
      count_and_log-IsCounted name insert_op one out e (insert e id vec) id t t' made
  perform_meta-IsCounted env name e (search_vec query) t t' out made =
      logged-IsCounted name search_op e e 0 t t' _ out (refl, refl) made
  perform_meta-IsCounted env name e (delete_id id) t t' out made =
      let (e', success) = remove e id env.disk in
      after_removal-IsCounted name e e' id success t t' out (remove-counts e id env.disk) made
  perform_meta-IsCounted env name e (update_vec id vec) t t' out made =
      let counts = update-counts e id vec in
      let answer = yes_or_no (update e id vec).1 in
      if_elim
        (λ u.
          ◌≡◌ {A = Option (List ℕ × T)} (some (answer, u)) (some (out, t'))
          → IsCounted name e (update e id vec).0 t t')
        (update e id vec).1 _ _
        (λ changed. logged-IsCounted name update_op e (update e id vec).0 id t t' answer out counts)
        (λ kept. unmoved name e (update e id vec).0 t t' answer out counts) made
  perform_meta-IsCounted env name e (insert_auto_vec vec) t t' out made =
      count_and_log-IsCounted name insert_auto_op _ out e (insert_auto e vec).1 _ t t' made
  perform_meta-IsCounted env name e (search_n_vec n query) t t' out made =
      unmoved name e e t t' _ out (refl, refl) made
  perform_meta-IsCounted env name e (set_probes n) t t' out made =
      unmoved name e (perform env e (set_probes n)).0 t t' _ out (probes-counts env e n) made
  perform_meta-IsCounted env name e (set_hnsw_ef n) t t' out made =
      unmoved name e (perform env e (set_hnsw_ef n)).0 t t' _ out (ef-counts env e n) made
  perform_meta-IsCounted env name e list_dbs t t' out made =
      let (dbs, listed, made') = bind-some (list_databases t) _ (out, t') made in
      unmoved name e e t t' _ out (refl, refl) made'
  perform_meta-IsCounted env name e db_info t t' out made =
      unmoved name e e t t' _ out (refl, refl) made
  perform_meta-IsCounted env name e unknown_cmd t t' out made =
      unmoved name e e t t' _ out (refl, refl) made
