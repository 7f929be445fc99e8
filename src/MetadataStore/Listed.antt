-- ===== src/MetadataStore/Listed.antt =====
-- The list of the databases (src/metadata_store.cpp) is by their names.
use red_box_db.Base.{List, Option, [], ap₂, arith, map, none, refl, some, ℕ, ◌∷◌, ◌≡◌}
use red_box_db.MetadataStore.Statements.{DbInfo, info_of, infos_of}
use red_box_db.MetadataStore.{Conversions, Row, Table, ◌>>=◌}

-- What a chain that comes to an end was made of.
pub bind-some {ℓ κ} :
    {A : Type ℓ} {B : Type κ} (o : Option A) (f : A → Option B) (b : B)
    → (o >>= f) ≡ some b
    → (a : A) × (o ≡ some a) × (f a ≡ some b)
bind-some none f b e = absurd (ground (arith, e))
bind-some (some a) f b e = (a, refl, e)

abbrev pub names_of : List DbInfo → List (List ℕ)
names_of dbs = map (λ (d : DbInfo). d.name) dbs

module _ ⦃conv : Conversions⦄ where
  info_of-name :
      (name : List ℕ) (row : Row) (d : DbInfo) → info_of name row ≡ some d → d.name ≡ name
  unfolding info_of
  info_of-name name row d e =
      let (dims, e0, e1) = bind-some (conv.as_uint32 row.dimensions) _ d e in
      let (cap, e2, e3) = bind-some (conv.as_uint64 row.capacity) _ d e1 in
      let (count, e4, e5) = bind-some (conv.as_uint64 row.vector_count) _ d e3 in
      let (next, e6, e7) = bind-some (conv.as_uint64 row.next_id) _ d e5 in ground (arith, e7)

module _ {T : Type 0} ⦃table : Table T⦄ ⦃conv : Conversions⦄ where
  pub infos_of-names :
      (ns : List (List ℕ)) (t : T) (dbs : List DbInfo)
      → infos_of ns t ≡ some dbs
      → names_of dbs ≡ ns
  unfolding infos_of
  infos_of-names [] t dbs e = let same : [] ≡ dbs = ground (arith, e) in rw (← same) refl
  infos_of-names (n ∷ ns) t dbs e =
      let (row, e0, e1) = bind-some (table.select n t) _ dbs e in
      let (d, e2, e3) = bind-some (info_of n row) _ dbs e1 in
      let (rest, e4, e5) = bind-some (infos_of ns t) _ dbs e3 in
      let same : d ∷ rest ≡ dbs = ground (arith, e5) in
      rw (← same) (ap₂ (λ n ns. n ∷ ns) (info_of-name n row d e2) (infos_of-names ns t rest e4))
