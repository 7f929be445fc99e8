-- ===== src/Tests/Engine.antt =====
-- A small IVF database through insertions, removals, searches and restarts.
use red_box_db.Base.{
  List, [], arith, contains, false, none, refl, some, sym, true, ℕ, ◌+◌, ◌<◌, ◌∷◌, ◌≡◌, ◌≢◌, ◌≤◌,
}
use red_box_db.Engine.{Engine, contents, update}
use red_box_db.Engine.Tombstones.{DiskCalls, entries_of, remove}
use red_box_db.Engine.Store.{IsStore}
use red_box_db.Engine.Open.{reopen}
use red_box_db.Engine.Durable.{IsDurable, IsFile, contents-reopen, reopen-IsStore}
use red_box_db.Engine.History.{
  AllSized, Call, abstract, costs, inserts, inserts_auto, removes, run, run-refines, spec_run,
  updates,
}
use red_box_db.Tests.{first_draws, lone_graph, nat_double, nat_float, small_file}
use red_box_db.Base.Int.{pos, to_int}
use red_box_db.Metadata.{ivf}
use red_box_db.Engine.Insert.{insert}
use red_box_db.Engine.Search.{candidates, search, search_n, search_n_slots, slot_dist}
use red_box_db.Engine.Refine.{Inserted, has_old_slot, has_place, insert-Inserted}
use red_box_db.Engine.Erase.{Updated, remove-Removed, update-Updated}
use red_box_db.Engine.Nearest.{Answer, IsFlat, search-Answer}
use red_box_db.Engine.TopN.{IsNearestN, search_n_slots-IsNearestN}
use red_box_db.Engine.Logged.{insert-IsDurable, reinsert_forgotten, remove-IsDurable}

small_file-IsFile : (capacity : ℕ) → IsFile (small_file capacity) 2
unfolding small_file
small_file-IsFile capacity = record { within = omega arith; sized = refl; rows = λ i lt. refl }

abbrev pub empty_db : Engine ℕ (Unit {0})
empty_db = reopen (small_file 3) none 2 2 false tt

empty_db-IsStore : IsStore empty_db
empty_db-IsStore = reopen-IsStore (small_file 3) none 2 2 false tt (small_file-IsFile 3)

abbrev disk_works : DiskCalls
disk_works = record {
  append_opens = true;
  tmp_opens = true;
  old_removes = true;
  rename_works = true;
}

abbrev first_calls : List (Call ℕ)
first_calls =
    inserts 7 (1 ∷ 1 ∷ [])
    ∷ inserts_auto (4 ∷ 4 ∷ [])
    ∷ removes 7 disk_works
    ∷ updates 1 (5 ∷ 4 ∷ [])
    ∷ []

empty_db-sized : AllSized empty_db.dimension first_calls
unfolding reopen small_file
empty_db-sized = (refl, (refl, (tt, (refl, tt))))

empty_db-room : empty_db.manager.vector_count + costs first_calls ≤ empty_db.manager.max_capacity
unfolding reopen small_file
empty_db-room = omega arith

run-refines_example :
    IsStore (run empty_db first_calls)
    × (abstract (run empty_db first_calls) ≡ spec_run (abstract empty_db) first_calls)
run-refines_example = run-refines empty_db first_calls empty_db-IsStore empty_db-sized empty_db-room

run_runs : contents (run empty_db first_calls) 1 ≡ some (5 ∷ 4 ∷ [])
unfolding run reopen small_file contents
run_runs = refl

-- Ids 7, 1 and 2 at (1,1), (4,4) and (9,9).
abbrev three_calls : List (Call ℕ)
three_calls = inserts 7 (1 ∷ 1 ∷ []) ∷ inserts 1 (4 ∷ 4 ∷ []) ∷ inserts 2 (9 ∷ 9 ∷ []) ∷ []

abbrev three : Engine ℕ (Unit {0})
three = run empty_db three_calls

three-sized : AllSized empty_db.dimension three_calls
unfolding reopen small_file
three-sized = (refl, (refl, (refl, tt)))

three-room :
    empty_db.manager.vector_count + costs {F = ℕ} three_calls ≤ empty_db.manager.max_capacity
unfolding reopen small_file
three-room = omega arith

three-IsStore : IsStore three
three-IsStore = (run-refines empty_db _ empty_db-IsStore three-sized three-room).0

three-dim : three.dimension ≡ 2
unfolding run reopen small_file
three-dim = refl

insert-Inserted_example :
    Inserted three (insert three 8 (3 ∷ 3 ∷ [])) 8 (3 ∷ 3 ∷ []) (has_place three 8)
insert-Inserted_example = insert-Inserted three 8 (3 ∷ 3 ∷ []) three-IsStore (sym three-dim)

three_full : has_place three 8 ≡ false
unfolding run reopen small_file contains
three_full = refl

update-Updated_example : Updated three 1 (3 ∷ 3 ∷ []) (update three 1 (3 ∷ 3 ∷ []))
update-Updated_example = update-Updated three 1 (3 ∷ 3 ∷ []) three-IsStore (sym three-dim)

three-IsFlat : IsFlat three
unfolding run reopen small_file
three-IsFlat = record { kind = refl; flat = refl }

search-Answer_example : Answer three (5 ∷ 3 ∷ []) (search three (5 ∷ 3 ∷ []))
search-Answer_example = search-Answer three (5 ∷ 3 ∷ []) three-IsFlat

search_runs : search three (5 ∷ 3 ∷ []) ≡ pos 1
unfolding run reopen small_file search contains
search_runs = refl

three_nonempty : three.manager.vector_count ≢ 0
unfolding run reopen small_file
three_nonempty e = absurd (omega arith)

three-kind : three.manager.index_type ≡ ivf
unfolding run reopen small_file
three-kind = refl

search_n_slots-IsNearestN_example :
    IsNearestN
      (slot_dist three (5 ∷ 3 ∷ []))
      (candidates three (5 ∷ 3 ∷ []))
      2
      (search_n_slots three (5 ∷ 3 ∷ []) 2)
search_n_slots-IsNearestN_example =
    search_n_slots-IsNearestN three (5 ∷ 3 ∷ []) 2 three-kind three_nonempty (omega arith)
      (λ s. refl)

search_n_runs : search_n three (5 ∷ 3 ∷ []) 2 ≡ pos 1 ∷ pos 7 ∷ []
unfolding run reopen small_file search_n contains to_int
search_n_runs = refl

-- Restarts.
empty_db-IsDurable : IsDurable empty_db
unfolding reopen small_file
empty_db-IsDurable = record {
  logged = λ id. refl;
  marked = λ i lt. absurd (omega arith);
  last = λ i lt f. absurd (omega arith);
}

empty_db-dim : empty_db.dimension ≡ 2
unfolding reopen small_file
empty_db-dim = refl

empty_db-deleted : contains empty_db.deleted_ids 7 ≡ false
unfolding reopen small_file contains
empty_db-deleted = refl

empty_db-new : (i : ℕ) → i < empty_db.manager.vector_count → empty_db.manager.id_block i ≢ 7
unfolding reopen small_file
empty_db-new i lt = absurd (omega arith)

abbrev pub stored_db : Engine ℕ (Unit {0})
stored_db = insert empty_db 7 (1 ∷ 1 ∷ [])

insert-IsDurable_example : IsDurable (insert empty_db 7 (1 ∷ 1 ∷ []))
insert-IsDurable_example =
    insert-IsDurable empty_db 7 (1 ∷ 1 ∷ []) empty_db-IsStore empty_db-IsDurable (sym empty_db-dim)
      empty_db-deleted empty_db-new

pub stored_db-IsDurable : IsDurable stored_db
stored_db-IsDurable =
    insert-IsDurable empty_db 7 (1 ∷ 1 ∷ []) empty_db-IsStore empty_db-IsDurable (sym empty_db-dim)
      empty_db-deleted empty_db-new

pub stored_db-IsStore : IsStore stored_db
stored_db-IsStore =
    (insert-Inserted empty_db 7 (1 ∷ 1 ∷ []) empty_db-IsStore (sym empty_db-dim)).valid

contents-reopen_example :
    contents
      (reopen stored_db.manager stored_db.tombstone_file stored_db.dimension 2 true (tt {0}))
      7
    ≡ contents stored_db 7
contents-reopen_example =
    contents-reopen stored_db 2 true tt 7 stored_db-IsStore stored_db-IsDurable

remove-IsDurable_example : IsDurable (remove stored_db 7 disk_works).0
remove-IsDurable_example =
    remove-IsDurable stored_db 7 disk_works (refl, refl, refl, refl) stored_db-IsStore
      stored_db-IsDurable

-- Its count of entries makes a compaction due, and the old file cannot be removed.
abbrev worn_db : Engine ℕ (Unit {0})
worn_db = record stored_db { tombstone_entries_on_disk = 100 }

abbrev stuck_disk : DiskCalls
stuck_disk = record disk_works { old_removes = false }

remove_throws : (remove worn_db 7 stuck_disk).1 ≡ none
unfolding remove insert reopen small_file contains
remove_throws = refl

abbrev gone_db : Engine ℕ (Unit {0})
gone_db = (remove stored_db 7 disk_works).0

gone_db-IsStore : IsStore gone_db
gone_db-IsStore = (remove-Removed stored_db 7 disk_works stored_db-IsStore).valid

gone_db-dim : gone_db.dimension ≡ 2
unfolding remove insert reopen small_file contains
gone_db-dim = refl

gone_db-old_slot : has_old_slot gone_db 7 ≡ true
unfolding remove insert reopen small_file contains
gone_db-old_slot = refl

gone_db-logged : contains (entries_of gone_db.tombstone_file) 7 ≡ true
unfolding remove insert reopen small_file contains
gone_db-logged = refl

abbrev back_db : Engine ℕ (Unit {0})
back_db = insert gone_db 7 (2 ∷ 2 ∷ [])

reinsert_forgotten_example :
    (contents back_db 7 ≡ some (2 ∷ 2 ∷ []))
    × (contents (reopen back_db.manager back_db.tombstone_file back_db.dimension 2 false (tt {0})) 7
        ≡ none)
reinsert_forgotten_example =
    reinsert_forgotten gone_db 7 (2 ∷ 2 ∷ []) 2 false tt gone_db-IsStore (sym gone_db-dim)
      gone_db-old_slot gone_db-logged
