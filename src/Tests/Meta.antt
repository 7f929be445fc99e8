-- ===== src/Tests/Meta.antt =====
-- A client of a server with a metadata store selects a database and inserts a vector.
use red_box_db.Base.{List, [], none, refl, some, subst, ℕ, ◌∷◌, ◌≡◌}
use red_box_db.MetadataStore.{Row}
use red_box_db.Tests.{first_draws, lone_graph, nat_double, nat_float}
use red_box_db.Tests.Tables.{checked_conversions, list_insert, list_select, list_table}
use red_box_db.Tests.Server.{ab, env, nat_bits, no_dbs, no_dbs-IsShared, one_db, one_db-IsShared}
use red_box_db.Tests.Startup.{ab_table}
use red_box_db.Server.{Name, find_name}
use red_box_db.Server.Receive.{act, insert_vec, select_db}
use red_box_db.Server.Serve.{one, serve}
use red_box_db.Server.Meta.{answered, serve_meta}
use red_box_db.Server.Meta.Matching.{Answers, Matches}
use red_box_db.Server.Meta.Same.{Throws, serve_meta-serve}
use red_box_db.Server.Meta.Mirrors.{IsActive, IsMirror}
use red_box_db.Server.Meta.Follows.{Mirrors, serve_meta-Mirrors}

abbrev no_rows : List (Name × Row)
no_rows = []

no_rows-IsMirror : IsMirror no_dbs no_rows
unfolding list_select find_name
no_rows-IsMirror = record { rows = λ n row e. cc; listed = λ n p e. cc }

ab_stored :
    serve_meta env 0 no_dbs no_rows none (select_db ab 2 3)
    ≡ answered one_db ab_table (some (0, ab)) one
unfolding serve_meta list_insert
ab_stored = refl

abbrev ab_mirrored : IsMirror one_db ab_table × IsActive one_db (some (0, ab))
ab_mirrored = subst (Mirrors (Throws env 0 no_dbs no_rows none (select_db ab 2 3))) ab_stored (
    serve_meta-Mirrors env 0 no_dbs no_rows none (select_db ab 2 3) no_dbs-IsShared no_rows-IsMirror
      tt)

serve_meta-Mirrors_example :
    Mirrors
      (Throws env 0 one_db ab_table (some (0, ab)) (act (insert_vec 7 (1 ∷ 2 ∷ []))))
      (serve_meta env 0 one_db ab_table (some (0, ab)) (act (insert_vec 7 (1 ∷ 2 ∷ []))))
serve_meta-Mirrors_example =
    serve_meta-Mirrors env 0 one_db ab_table (some (0, ab)) (act (insert_vec 7 (1 ∷ 2 ∷ [])))
      one_db-IsShared ab_mirrored.0 ab_mirrored.1

serve_meta-serve_example :
    Matches
      (Answers {F = ℕ} (act (insert_vec 7 (1 ∷ 2 ∷ []))))
      (Throws env 0 one_db ab_table (some (0, ab)) (act (insert_vec 7 (1 ∷ 2 ∷ []))))
      (serve_meta env 0 one_db ab_table (some (0, ab)) (act (insert_vec 7 (1 ∷ 2 ∷ []))))
      (serve env 0 one_db (some 0) (act (insert_vec 7 (1 ∷ 2 ∷ []))))
serve_meta-serve_example =
    serve_meta-serve env 0 one_db ab_table (some (0, ab)) (act (insert_vec 7 (1 ∷ 2 ∷ [])))
