-- ===== src/Server/Meta/Mirrors.antt =====
-- The rows of the metadata store follow the databases of the server (src/server.cpp).
use red_box_db.Base.{
  List, Option, Bool-cases, arith, inl, inr, none, some, subst, true, update_map, ℕ, ◌≡◌, ◌≢◌,
}
use red_box_db.Base.Names.{same_name, same_name-eq, same_name_iff}
use red_box_db.Engine.{Engine}
use red_box_db.Engine.Erase.{is_some}
use red_box_db.MetadataStore.{Row, Table}
use red_box_db.Server.{Name, SharedState, find_name}
use red_box_db.Server.Serve.{add_database, forgotten}
use red_box_db.Storage.Open.{Stored}
use red_box_db.Server.Catalog.{find_name-erase_name}
use red_box_db.Server.Keeps.{IsShared, below-next}
use red_box_db.Server.Meta.{NamedConnection}
use red_box_db.Server.Meta.Counted.{Counts, IsCounted}

module _ {F G T : Type 0} ⦃table : Table T⦄ where
  -- Each row is that of an open database, with its counts, and each database has a row.
  pub record IsMirror (s : SharedState F G) (t : T) : Type 0 where
    pub rows :
        (n : Name) (row : Row)
        → table.select n t ≡ some row
        → (p : ℕ) × (e : Engine F G) × (find_name n s.catalog ≡ some p)
          × (s.heap p ≡ some e)
          × Counts row e
    pub listed :
        (n : Name) (p : ℕ)
        → find_name n s.catalog ≡ some p
        → (row : Row) × (table.select n t ≡ some row)

module _ {F G : Type 0} where
  -- As long as its database is open, a connection has its name.
  abbrev pub IsActive : SharedState F G → NamedConnection → Type 0
  IsActive s none = Unit {0}
  IsActive s (some (p, name)) = is_some (s.heap p) ≡ true → find_name name s.catalog ≡ some p

module _ {F G T : Type 0} ⦃table : Table T⦄ where
  pub add_database-IsMirror :
      (s : SharedState F G) (t t' : T) (name : Name) (e : Engine F G) (row : Row)
      → IsShared s
      → IsMirror s t
      → find_name name s.catalog ≡ none
      → table.insert name row t ≡ some t'
      → Counts row e
      → IsMirror (add_database s name e) t'
  unfolding add_database find_name
  add_database-IsMirror s t t' name e row h m new made counts =
      let first = table.select-insert name row t t' made in
      let others = λ (n : Name). table.select-insert_other name n row t t' made in
      record {
        rows = λ n r at. elim (Bool-cases (same_name name n)) [
          | inl this ↦
              let same = same_name-eq name n this in
              let eq : row ≡ r = ground (arith, first, at, same) in
              (s.next, e, ground (arith, this), ground arith, subst (λ x. Counts x e) eq counts)
          | inr other ↦
              let ne : n ≢ name = ground (arith, other, same_name_iff name n) in
              let (p, d, f, hp, c) = m.rows n r (ground (arith, others n ne, at)) in
              (p, d, ground (arith, f, other), ground (arith, hp, below-next s n p h f), c)
        ];
        listed = λ n p at. elim (Bool-cases (same_name name n)) [
          | inl this ↦ (row, ground (arith, first, same_name-eq name n this))
          | inr other ↦
              let ne : n ≢ name = ground (arith, other, same_name_iff name n) in
              let (r, old) = m.listed n p (ground (arith, at, other)) in
              (r, ground (arith, others n ne, old))
        ];
      }

  pub forgotten-IsMirror :
      (s : SharedState F G) (t t' : T) (p : ℕ) (name : Name) (file : Option (Stored F))
      (tombstone_file : Option (List ℕ))
      → IsShared s
      → IsMirror s t
      → find_name name s.catalog ≡ some p
      → table.delete name t ≡ some t'
      → IsMirror (forgotten s p name file tombstone_file) t'
  forgotten-IsMirror s t t' p name file tombstone_file h m at made =
      let gone = table.select-delete name t t' made in
      let others = λ (n : Name). table.select-delete_other name n t t' made in
      let found = λ (n : Name). find_name-erase_name name n s.catalog in
      record {
        rows = λ n r at'.
            let ne : n ≢ name = λ same. ground (arith, gone, at', same) in
            let (q, d, f, hq, c) = m.rows n r (ground (arith, others n ne, at')) in
            (
              q,
              d,
              ground (arith, found n, f, same_name_iff name n, ne),
              ground (arith, hq, h.unique name n p at, f, ne),
              c,
            );
        listed = λ n q at'.
            let (ne, old) : (n ≢ name) × (find_name n s.catalog ≡ some q) =
              (ground (arith, found n, at', same_name_iff name n), ground (arith, found n, at')) in
            let (row, old_row) = m.listed n q old in (row, ground (arith, others n ne, old_row));
      }

  pub changed-IsMirror :
      (s : SharedState F G) (t t' : T) (p : ℕ) (name : Name) (e e' : Engine F G)
      → IsShared s
      → IsMirror s t
      → find_name name s.catalog ≡ some p
      → s.heap p ≡ some e
      → IsCounted name e e' t t'
      → IsMirror (record s { heap = update_map s.heap p (some e') }) t'
  changed-IsMirror s t t' p name e e' h m at open_e k =
      let (r, at_r) = m.listed name p at in
      let (q, d, f, hq, c) = m.rows name r at_r in
      let same : d ≡ e = ground (arith, f, at, hq, open_e) in
      let (r', at_r', c') = k.row r at_r (subst (Counts r) same c) in
      record {
        rows = λ n x at_x. elim (Bool-cases (same_name name n)) [
          | inl this ↦
              let named = same_name-eq name n this in
              let eq : r' ≡ x = ground (arith, at_r', at_x, named) in
              (p, e', ground (arith, at, named), ground arith, subst (λ y. Counts y e') eq c')
          | inr other ↦
              let ne : n ≢ name = ground (arith, other, same_name_iff name n) in
              let (o, d', f', ho, c'') = m.rows n x (ground (arith, k.others n ne, at_x)) in
              (o, d', f', ground (arith, ho, h.unique name n p at, f', ne), c'')
        ];
        listed = λ n o at_o. elim (Bool-cases (same_name name n)) [
          | inl this ↦ (r', ground (arith, at_r', same_name-eq name n this))
          | inr other ↦
              let ne : n ≢ name = ground (arith, other, same_name_iff name n) in
              let (x, old) = m.listed n o at_o in (x, ground (arith, k.others n ne, old))
        ];
      }
