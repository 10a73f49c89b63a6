-- ===== src/Examples/Rubrics.antt =====
-- The theorems on rubrics, for teacher 7 with one rubric of two criteria.
use Prim.Native.String
use rubric_grading_engine.Prelude.{
  ℕ, ◌+◌, ◌*◌, ◌≡◌, refl, ◌↔◌, ◌⊎◌, false, none, some, List, [], ◌∷◌, ◌++◌, map, ltb, if◌then◌else◌,
}
use rubric_grading_engine.Prelude.Int.{pos}
use rubric_grading_engine.Prelude.Results.{not_found, rubric_in_use, ok, err}
use rubric_grading_engine.Prelude.Tables.{get, get_where, put}
use rubric_grading_engine.Models.{Class, Assignment, draft}
use rubric_grading_engine.Rubrics.{
  Rubric, RubricCriterion, Decimal, RubricCriterionRequest, Library, Loaded, quantize,
  validate_weight_sum, get_rubric_owned_by, get_criteria_for_rubric, build_criteria_orm, row_of,
  CriterionObject, Written, get_rubric, new_rubric, add_rubric, create_rubric,
  build_rubric_snapshot,
}
use rubric_grading_engine.Rubrics.Changes.{
  RubricChanges, change_rubric, replace_criteria, update_rubric, delete_rubric, copy_criteria,
  duplicate_rubric,
}
use rubric_grading_engine.Prelude.Orders.{sort_by, insert_by}
use mathlib.Core.List.{Perm}
use rubric_grading_engine.Rubrics.DisplayOrder.{InOrder}
use rubric_grading_engine.Rubrics.Weights.{even_ties, stored_weight, create-stored_weight}
use rubric_grading_engine.Prelude.{All}
use rubric_grading_engine.Rubrics.Deletion.{IsBlocking, Exists, delete-cases}
use rubric_grading_engine.Rubrics.Reading.{update-get_rubric}
use rubric_grading_engine.Rubrics.Duplicates.{content, duplicate-get_rubric}
use rubric_grading_engine.Rubrics.Assigning.{get_class_owned_by, NewAssignment, create_assignment}
use rubric_grading_engine.Rubrics.Snapshots.{
  delete, assignment_of, call_all, create-assignment_snapshot,
}
use rubric_grading_engine.Assignments.{tone_of}
use rubric_grading_engine.Models.{direct}
use rubric_grading_engine.Examples.Data.{db}

abbrev rubric : Rubric
rubric = record {
  id = 20;
  teacher_id = some 7;
  name = "Essay";
  description = none;
  is_template = false;
  updated_at = 0;
  deleted_at = none;
}

abbrev criterion_row : ℕ → ℕ → ℕ → RubricCriterion
criterion_row id order weight = record {
  id = id;
  rubric_id = 20;
  name = "Thesis";
  description = "";
  weight = weight;
  min_score = pos 1;
  max_score = pos 5;
  display_order = order;
  anchor_descriptions = none;
}

abbrev lib : Library
lib = record {
  db = db;
  rubrics = rubric ∷ [];
  criteria = criterion_row 31 1 4000 ∷ criterion_row 30 0 6000 ∷ [];
}

-- The column's rounding.
abbrev column : Decimal → ℕ
column d = if ltb (2 * d.digits) d.scale then d.hundredths else d.hundredths + 1

abbrev weighted : ℕ → ℕ → RubricCriterionRequest
weighted hundredths digits = record {
  name = "Thesis";
  description = "";
  weight = record { hundredths = hundredths; digits = digits; scale = 10 };
  min_score = pos 1;
  max_score = pos 5;
  anchor_descriptions = none;
}

-- 50.005 and 49.995.
abbrev requests : List RubricCriterionRequest
requests = weighted 5000 5 ∷ weighted 4999 5 ∷ []

abbrev ids_from : ℕ → ℕ → ℕ
ids_from n i = n + i

abbrev made : Written
made = (new_rubric 9 21 7 "New" none, build_criteria_orm (ids_from 40) 21 0 requests)

abbrev grown : Library
grown = add_rubric lib made.0 (map (row_of column) made.1)

creating : create_rubric column (ids_from 40) 9 lib 21 7 "New" none requests ≡ ok (grown, made)
unfolding create_rubric validate_weight_sum quantize
creating = refl

create-stored_weight_example :
    let stored = stored_weight (get_criteria_for_rubric grown.criteria 21) in
    (stored ≡ 10000 + even_ties requests)
    × ((stored ≡ 10000) ↔ (even_ties requests ≡ 0))
    × (map (λ (c : CriterionObject). c.weight) made.1
        ≡ map (λ (c : RubricCriterionRequest). c.weight) requests)
create-stored_weight_example =
    create-stored_weight column (ids_from 40) 9 lib grown 21 7 "New" none requests made (λ d. refl)
      refl creating

-- So a rubric of 100.01 per cent is accepted.
stored_too_much : stored_weight (get_criteria_for_rubric grown.criteria 21) ≡ 10001
unfolding build_criteria_orm get_criteria_for_rubric sort_by insert_by
stored_too_much = refl

abbrev changes : RubricChanges
changes = record {
  name = some "Longer essay";
  description = none;
  criteria = some (weighted 10000 0 ∷ []);
}

abbrev changed : Rubric
changed = record rubric { name = "Longer essay"; updated_at = 9 }

abbrev new_criteria : List CriterionObject
new_criteria = build_criteria_orm (ids_from 50) 20 0 (weighted 10000 0 ∷ [])

abbrev changed_lib : Library
changed_lib = record lib {
  rubrics = changed ∷ [];
  criteria = lib.criteria ++ map (row_of column) new_criteria;
}

updating :
    update_rubric column (ids_from 50) 9 lib 7 20 changes
    ≡ ok (changed_lib, (changed, new_criteria))
unfolding update_rubric get_rubric_owned_by get_where get put change_rubric replace_criteria
    validate_weight_sum quantize
updating = refl

update-get_rubric_example :
    (old : Loaded) × (cs : List RubricCriterion) × (get_rubric lib 7 20 ≡ ok old)
    × (get_rubric changed_lib 7 20 ≡ ok (changed, cs))
    × InOrder cs
    × Perm cs (old.1 ++ map (row_of column) new_criteria)
update-get_rubric_example =
    update-get_rubric column (ids_from 50) 9 lib changed_lib 7 20 changes (changed, new_criteria)
      updating

-- So a rubric that is given new criteria weighs 200 per cent.
replaced_weight : stored_weight (get_criteria_for_rubric changed_lib.criteria 20) ≡ 20000
unfolding build_criteria_orm get_criteria_for_rubric sort_by insert_by
replaced_weight = refl

delete-cases_example :
    ((delete_rubric 9 lib 7 20 ≡ err rubric_in_use) × Exists (IsBlocking db 7 20) db.assignments)
    ⊎ ((lib' : Library) × (delete_rubric 9 lib 7 20 ≡ ok lib')
        × All (λ a. ¬ IsBlocking db 7 20 a) db.assignments
        × ((reader : ℕ) → get_rubric lib' reader 20 ≡ err not_found))
unfolding get
delete-cases_example = delete-cases 9 lib 7 20 rubric (refl, refl, refl)

abbrev ordered : List RubricCriterion
ordered = criterion_row 30 0 6000 ∷ criterion_row 31 1 4000 ∷ []

abbrev copied : Loaded
copied = (new_rubric 9 22 7 "Copy of Essay" none, copy_criteria (ids_from 60) 22 0 ordered)

duplicating :
    duplicate_rubric (ids_from 60) 9 lib 22 7 20 ≡ ok (add_rubric lib copied.0 copied.1, copied)
unfolding duplicate_rubric get_rubric get_rubric_owned_by get_where get get_criteria_for_rubric
    sort_by insert_by
duplicating = refl

duplicate-get_rubric_example :
    (source : Loaded) × (get_rubric lib 7 20 ≡ ok source)
    × (get_rubric (add_rubric lib copied.0 copied.1) 7 22 ≡ ok copied)
    × (copied.0.name ≡ String.◌++◌ "Copy of " source.0.name)
    × (map content copied.1 ≡ map content source.1)
    × (get_criteria_for_rubric (lib.criteria ++ copied.1) source.0.id ≡ source.1)
unfolding get
duplicate-get_rubric_example =
    duplicate-get_rubric (ids_from 60) 9 lib (add_rubric lib copied.0 copied.1) 22 7 20 copied refl
      refl duplicating

abbrev body : NewAssignment
body = record {
  id = 3;
  class_id = 1;
  rubric_id = 20;
  title = "First";
  prompt = none;
  due_date = none;
  feedback_tone = "direct";
}

abbrev first : Assignment
first = assignment_of lib body rubric direct

abbrev assigned_lib : Library
assigned_lib = record lib { db = record db { assignments = db.assignments ++ (first ∷ []) } }

assigning : create_assignment lib 7 body ≡ ok (assigned_lib, first)
unfolding create_assignment get_class_owned_by get_where get tone_of
assigning = refl

create-assignment_snapshot_example :
    (loaded : Loaded) × (get_rubric lib 7 20 ≡ ok loaded)
    × (first.rubric_snapshot ≡ build_rubric_snapshot loaded.0 loaded.1)
    × (first.status ≡ draft)
    × ((c : Class) × (get_class_owned_by db 1 7 ≡ ok c))
    × ((call_all column assigned_lib (delete 9 7 20 ∷ [])).db.assignments
        ≡ db.assignments ++ (first ∷ []))
create-assignment_snapshot_example =
    create-assignment_snapshot column lib assigned_lib 7 body first (delete 9 7 20 ∷ []) assigning
