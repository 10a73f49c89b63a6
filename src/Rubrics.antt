-- ===== src/Rubrics.antt =====
-- backend/app/services/rubric.py: rubrics and their criteria. Each operation commits once, at its end,
-- so one that raises changes nothing. Weights are hundredths of a per cent, as their column keeps
-- them; a requested weight may have more digits.
pub mod Changes
pub mod Weights
pub mod DisplayOrder
pub mod Reading
pub mod Deletion
pub mod Listing
pub mod Grouping
pub mod Duplicates
pub mod Assigning
pub mod Snapshots
use rubric_grading_engine.Prelude.{
  ℕ, suc, ◌+◌, ◌*◌, ◌%◌, String, Bool, true, false, not, ◌&&◌, Option, none, some, List, [], ◌∷◌,
  ◌++◌, map, ltb, ◌==◌, if◌then◌else◌, select,
}
use rubric_grading_engine.Prelude.Int.{ℤ}
use rubric_grading_engine.Prelude.Results.{
  not_found, forbidden, rubric_weight_invalid, Result, ok, ◌>>=◌, ◌>>◌, raise_if, or_raise,
}
use rubric_grading_engine.Prelude.Tables.{Row, get_where}
use Prim.Native.String
use rubric_grading_engine.Prelude.Orders.{sort_by}
use rubric_grading_engine.Models.{SnapshotCriterion, RubricSnapshot, class_row, assignment_row}
use rubric_grading_engine.Models.Store.{Db}

pub record Rubric : Type 0 where
  pub id : ℕ
  pub teacher_id : Option ℕ
  pub name : String
  pub description : Option String
  pub is_template : Bool
  pub updated_at : ℕ
  pub deleted_at : Option ℕ

pub record RubricCriterion : Type 0 where
  pub id : ℕ
  pub rubric_id : ℕ
  pub name : String
  pub description : String
  pub weight : ℕ
  pub min_score : ℤ
  pub max_score : ℤ
  pub display_order : ℕ
  pub anchor_descriptions : Option (List (String × String))

instance abbrev pub rubric_row : Row Rubric
rubric_row = record { key = λ x. x.id }

-- A nonnegative decimal, split after its second place: the hundredths, and the other digits as a
-- numerator below a denominator.
pub record Decimal : Type 0 where
  pub hundredths : ℕ
  pub digits : ℕ
  pub scale : ℕ

pub record RubricCriterionRequest : Type 0 where
  pub name : String
  pub description : String
  pub weight : Decimal
  pub min_score : ℤ
  pub max_score : ℤ
  pub anchor_descriptions : Option (List (String × String))

-- The tables of rubrics beside the others. Rows stand in the order of their creation.
pub record Library : Type 0 where
  pub db : Db
  pub rubrics : List Rubric
  pub criteria : List RubricCriterion

-- `weight.quantize(Decimal("0.01"))`, which rounds half to even.
unfoldable pub quantize : Decimal → ℕ
quantize d =
    if ltb (2 * d.digits) d.scale
    then d.hundredths
    else if 2 * d.digits == d.scale
    then d.hundredths + d.hundredths % 2
    else d.hundredths + 1

abbrev pub total_weight : List RubricCriterionRequest → ℕ
total_weight [] = 0
total_weight (c ∷ cs) = quantize c.weight + total_weight cs

unfoldable pub validate_weight_sum : List RubricCriterionRequest → Result (Unit {0})
validate_weight_sum criteria = raise_if (not (total_weight criteria == 10000)) rubric_weight_invalid

abbrev pub is_deleted : Rubric → Bool
is_deleted r = elim r.deleted_at [ none ↦ false | some _ ↦ true ]

abbrev pub is_owned_by : ℕ → Rubric → Bool
is_owned_by t r = elim r.teacher_id [ none ↦ false | some owner ↦ owner == t ]

-- The first query decides between 404 and 403, the second loads the row.
unfoldable pub get_rubric_owned_by : Library → ℕ → ℕ → Result Rubric
get_rubric_owned_by lib k t = do
  row ← or_raise (get_where k (λ r. not (is_deleted r)) lib.rubrics) not_found
  raise_if (not (is_owned_by t row)) forbidden
  or_raise (get_where k (λ r. is_owned_by t r && not (is_deleted r)) lib.rubrics) not_found

abbrev pub is_before : RubricCriterion → RubricCriterion → Bool
is_before x y = ltb x.display_order y.display_order

abbrev pub is_of : ℕ → RubricCriterion → Bool
is_of k c = c.rubric_id == k

unfoldable pub get_criteria_for_rubric : List RubricCriterion → ℕ → List RubricCriterion
get_criteria_for_rubric criteria k = sort_by is_before (select (is_of k) criteria)

-- A criterion as the session holds it: a new one keeps the weight that was asked for, also after the
-- commit, since it is not refreshed.
pub record CriterionObject : Type 0 where
  pub id : ℕ
  pub rubric_id : ℕ
  pub name : String
  pub description : String
  pub weight : Decimal
  pub min_score : ℤ
  pub max_score : ℤ
  pub display_order : ℕ
  pub anchor_descriptions : Option (List (String × String))

-- The objects of the requests, numbered from `i`, with the ids that their rows will have.
unfoldable pub build_criteria_orm :
    (ℕ → ℕ) → ℕ → ℕ → List RubricCriterionRequest → List CriterionObject
build_criteria_orm new_id k i [] = []
build_criteria_orm new_id k i (c ∷ cs) =
    record {
      id = new_id i;
      rubric_id = k;
      name = c.name;
      description = c.description;
      weight = c.weight;
      min_score = c.min_score;
      max_score = c.max_score;
      display_order = i;
      anchor_descriptions = c.anchor_descriptions;
    }
    ∷ build_criteria_orm new_id k (suc i) cs

-- The row that an object is written as: the column rounds the weight.
abbrev pub row_of : (Decimal → ℕ) → CriterionObject → RubricCriterion
row_of column c = record {
  id = c.id;
  rubric_id = c.rubric_id;
  name = c.name;
  description = c.description;
  weight = column c.weight;
  min_score = c.min_score;
  max_score = c.max_score;
  display_order = c.display_order;
  anchor_descriptions = c.anchor_descriptions;
}

-- The object that a row is loaded as.
abbrev pub object_of : RubricCriterion → CriterionObject
object_of c = record {
  id = c.id;
  rubric_id = c.rubric_id;
  name = c.name;
  description = c.description;
  weight = record { hundredths = c.weight; digits = 0; scale = 1 };
  min_score = c.min_score;
  max_score = c.max_score;
  display_order = c.display_order;
  anchor_descriptions = c.anchor_descriptions;
}

-- The rows that the objects of the requests are written as.
abbrev pub build_criteria :
    (Decimal → ℕ) → (ℕ → ℕ) → ℕ → ℕ → List RubricCriterionRequest → List RubricCriterion
build_criteria column new_id k i requests =
    map (row_of column) (build_criteria_orm new_id k i requests)

-- A rubric with its criteria.
abbrev pub Loaded : Type 0
Loaded = Rubric × List RubricCriterion

-- What a creation or an update returns: the refreshed rubric, and the criteria as the session holds them.
abbrev pub Written : Type 0
Written = Rubric × List CriterionObject

unfoldable pub get_rubric : Library → ℕ → ℕ → Result Loaded
get_rubric lib t k = do
  rubric ← get_rubric_owned_by lib k t
  ok (rubric, get_criteria_for_rubric lib.criteria rubric.id)

abbrev pub new_rubric : ℕ → ℕ → ℕ → String → Option String → Rubric
new_rubric now k t name description = record {
  id = k;
  teacher_id = some t;
  name = name;
  description = description;
  is_template = false;
  updated_at = now;
  deleted_at = none;
}

abbrev pub add_rubric : Library → Rubric → List RubricCriterion → Library
add_rubric lib rubric criteria = record lib {
  rubrics = lib.rubrics ++ (rubric ∷ []);
  criteria = lib.criteria ++ criteria;
}

unfoldable pub create_rubric :
    (Decimal → ℕ)
    → (ℕ → ℕ)
    → ℕ
    → Library
    → ℕ
    → ℕ
    → String
    → Option String
    → List RubricCriterionRequest
    → Result (Library × Written)
create_rubric column new_id now lib k t name description requests = do
  validate_weight_sum requests
  let rubric = new_rubric now k t name description
  let criteria = build_criteria_orm new_id k 0 requests
  ok (add_rubric lib rubric (map (row_of column) criteria), (rubric, criteria))

abbrev pub snapshot_criterion : RubricCriterion → SnapshotCriterion
snapshot_criterion c = record {
  id = c.id;
  name = c.name;
  description = c.description;
  weight = c.weight;
  min_score = c.min_score;
  max_score = c.max_score;
  display_order = c.display_order;
  anchor_descriptions = c.anchor_descriptions;
}

unfoldable pub build_rubric_snapshot : Rubric → List RubricCriterion → RubricSnapshot
build_rubric_snapshot rubric criteria = record {
  id = rubric.id;
  name = rubric.name;
  description = rubric.description;
  criteria = map snapshot_criterion criteria;
}
