-- ===== src/Tests/Tables.antt =====
-- A table of rows as a list, and conversions of numbers.
use red_box_db.Base.Names.{same_name, same_name_iff, same_name_refl}
use red_box_db.MetadataStore.Statements.{is_known}
use red_box_db.Base.{
  All, Bool-cases, List, Option, Option-cases, Pairwise, [], arith, false, if◌then◌else◌, inl, inr,
  ltb, none, refl, some, subst, ℕ, ◌<◌, ◌∷◌, ◌≡◌, ◌≢◌,
}
use red_box_db.Base.Int.{negsuc, pos, ℤ}
use red_box_db.MetadataStore.{Conversions, Row, Table}

unfoldable pub list_select : List ℕ → List (List ℕ × Row) → Option Row
unfolding same_name
list_select name [] = none
list_select name ((n, row) ∷ t) = if same_name n name then some row else list_select name t

-- The names are unique.
unfoldable pub list_insert : List ℕ → Row → List (List ℕ × Row) → Option (List (List ℕ × Row))
unfolding list_select
list_insert name row t = elim (list_select name t) [ some r ↦ none | none ↦ some ((name, row) ∷ t) ]

unfoldable pub list_add : List ℕ → Row → List (List ℕ × Row) → Option (List (List ℕ × Row))
unfolding list_select
list_add name row t = elim (list_select name t) [ some r ↦ some t | none ↦ some ((name, row) ∷ t) ]

unfoldable pub list_counts : List ℕ → ℤ → ℤ → List (List ℕ × Row) → List (List ℕ × Row)
unfolding same_name
list_counts name count next [] = []
list_counts name count next ((n, row) ∷ t) =
    (n, if same_name n name then record row { vector_count = count; next_id = next } else row)
    ∷ list_counts name count next t

unfoldable pub list_hnsw : List ℕ → ℤ → ℤ → List (List ℕ × Row) → List (List ℕ × Row)
unfolding same_name
list_hnsw name entry version [] = []
list_hnsw name entry version ((n, row) ∷ t) =
    (
      n,
      if same_name n name
          then record row { hnsw_entry_point = entry; hnsw_graph_version = version }
          else row,
    )
    ∷ list_hnsw name entry version t

unfoldable pub list_delete : List ℕ → List (List ℕ × Row) → List (List ℕ × Row)
unfolding same_name
list_delete name [] = []
list_delete name ((n, row) ∷ t) =
    if same_name n name then list_delete name t else (n, row) ∷ list_delete name t

unfoldable pub list_names : List (List ℕ × Row) → List (List ℕ)
unfolding is_known
list_names [] = []
list_names ((n, row) ∷ t) = if is_known n (list_names t) then list_names t else n ∷ list_names t

pub list_select-insert :
    (name : List ℕ) (row : Row) (t t' : List (List ℕ × Row))
    → list_insert name row t ≡ some t'
    → list_select name t' ≡ some row
unfolding list_insert list_select
list_select-insert name row t t' e = elim (Option-cases (list_select name t)) [
  | inr (r, taken) ↦ absurd (ground (arith, e, taken))
  | inl free ↦
      let same : (name, row) ∷ t ≡ t' = ground (arith, e, free) in
      rw (← same) (rw (same_name_refl name) refl)
]

pub list_select-insert_other :
    (name other : List ℕ) (row : Row) (t t' : List (List ℕ × Row))
    → list_insert name row t ≡ some t'
    → other ≢ name
    → list_select other t' ≡ list_select other t
unfolding list_insert list_select
list_select-insert_other name other row t t' e ne = elim (Option-cases (list_select name t)) [
  | inr (r, taken) ↦ absurd (ground (arith, e, taken))
  | inl free ↦
      let same : (name, row) ∷ t ≡ t' = ground (arith, e, free) in
      rw (← same) (ground (arith, same_name_iff name other, ne))
]

pub list_select-counts :
    (name : List ℕ) (count next : ℤ) (row : Row) (t : List (List ℕ × Row))
    → list_select name t ≡ some row
    → list_select name (list_counts name count next t)
      ≡ some (record row { vector_count = count; next_id = next })
unfolding list_counts list_select
list_select-counts name count next row [] e = cc
list_select-counts name count next row ((n, r) ∷ t) e =
    ground (arith, list_select-counts name count next row t)

pub list_select-counts_other :
    (name other : List ℕ) (count next : ℤ) (t : List (List ℕ × Row))
    → other ≢ name
    → list_select other (list_counts name count next t) ≡ list_select other t
unfolding list_counts list_select
list_select-counts_other name other count next [] ne = refl
list_select-counts_other name other count next ((n, r) ∷ t) ne = ground (
  arith,
  list_select-counts_other name other count next t ne,
  same_name_iff n name,
  same_name_iff n other,
)

pub list_select-delete :
    (name : List ℕ) (t : List (List ℕ × Row)) → list_select name (list_delete name t) ≡ none
unfolding list_delete list_select
list_select-delete name [] = refl
list_select-delete name ((n, r) ∷ t) = ground (arith, list_select-delete name t)

pub list_select-delete_other :
    (name other : List ℕ) (t : List (List ℕ × Row))
    → other ≢ name
    → list_select other (list_delete name t) ≡ list_select other t
unfolding list_delete list_select
list_select-delete_other name other [] ne = refl
list_select-delete_other name other ((n, r) ∷ t) ne =
    ground
      (arith, list_select-delete_other name other t ne, same_name_iff n name, same_name_iff n other)

is_known-All :
    (name : List ℕ) (ns : List (List ℕ)) → is_known name ns ≡ false → All (λ n. name ≢ n) ns
unfolding is_known
is_known-All name [] e = tt
is_known-All name (n ∷ ns) e =
    (ground (arith, same_name_iff n name), is_known-All name ns (ground arith))

pub list_names-Pairwise : (t : List (List ℕ × Row)) → Pairwise (λ m n. m ≢ n) (list_names t)
unfolding list_names
list_names-Pairwise [] = tt
list_names-Pairwise ((n, row) ∷ t) = elim (Bool-cases (is_known n (list_names t))) [
  | inl known ↦ rw known (list_names-Pairwise t)
  | inr new ↦ rw new (is_known-All n (list_names t) new, list_names-Pairwise t)
]

pub some-inj : {t t' : List (List ℕ × Row)} → some t ≡ some t' → t ≡ t'
some-inj e = ground (arith, e)

instance abbrev pub list_table : Table (List (List ℕ × Row))
list_table = record {
  insert = list_insert;
  insert_new = list_add;
  select = list_select;
  update_counts = λ name count next t. some (list_counts name count next t);
  update_hnsw = λ name entry version t. some (list_hnsw name entry version t);
  delete = λ name t. some (list_delete name t);
  names = list_names;
  log = λ name op id t. t;
  select-insert = list_select-insert;
  select-insert_other = list_select-insert_other;
  select-update_counts = λ name count next row t t' e at.
      subst (λ x. list_select name x ≡ some (record row { vector_count = count; next_id = next }))
        (some-inj e) (list_select-counts name count next row t at);
  select-update_counts_other = λ name other count next t t' e ne.
      subst (λ x. list_select other x ≡ list_select other t) (some-inj e)
        (list_select-counts_other name other count next t ne);
  select-delete = λ name t t' e.
      subst (λ x. list_select name x ≡ none) (some-inj e) (list_select-delete name t);
  select-delete_other = λ name other t t' e ne.
      subst (λ x. list_select other x ≡ list_select other t) (some-inj e)
        (list_select-delete_other name other t ne);
  select-log = λ name other op id t. refl;
  names_unique = list_names-Pairwise;
}

unfoldable pub checked_nat : ℕ → ℤ → Option ℕ
checked_nat size (pos n) = if ltb n size then some n else none
checked_nat size (negsuc n) = none

unfoldable pub checked_int : ℤ → Option ℤ
checked_int (pos n) = if ltb n 2147483648 then some (pos n) else none
checked_int (negsuc n) = if ltb n 2147483648 then some (negsuc n) else none

pub checked_nat-pos : (size n : ℕ) → n < size → checked_nat size (pos n) ≡ some n
unfolding checked_nat
checked_nat-pos size n h = ground arith

pub checked_nat-negsuc : (size n : ℕ) → checked_nat size (negsuc n) ≡ none
unfolding checked_nat
checked_nat-negsuc size n = refl

pub checked_int-pos : (n : ℕ) → n < 2147483648 → checked_int (pos n) ≡ some (pos n)
unfolding checked_int
checked_int-pos n h = ground arith

instance abbrev pub checked_conversions : Conversions
checked_conversions = record {
  as_uint64 = checked_nat 18446744073709551616;
  as_uint32 = checked_nat 4294967296;
  as_int = checked_int;
  as_uint64-pos = checked_nat-pos 18446744073709551616;
  as_uint32-pos = checked_nat-pos 4294967296;
  as_uint32-negsuc = checked_nat-negsuc 4294967296;
  as_int-pos = checked_int-pos;
}
