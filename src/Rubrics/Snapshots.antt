-- ===== src/Rubrics/Snapshots.antt =====
-- The snapshot in an assignment: taken from the rubric as its owner reads it, and kept by every later
-- operation on rubrics.
use rubric_grading_engine.Prelude.{
  ℕ, String, ◌≡◌, refl, sym, ap, ◌∙◌, false, Option, List, [], ◌∷◌, ◌++◌, arith,
}
use rubric_grading_engine.Prelude.Results.{Result, ok, err, ◌>>=◌, >>=-eq-ok, ok-pair_injective}
use rubric_grading_engine.Prelude.Tables.{key-get}
use rubric_grading_engine.Models.{Class, Assignment, draft, FeedbackTone}
use rubric_grading_engine.Models.Store.{Db}
use rubric_grading_engine.Assignments.{tone_of}
use rubric_grading_engine.Rubrics.{
  Rubric, Decimal, RubricCriterionRequest, Library, Loaded, rubric_row, get_criteria_for_rubric,
  build_rubric_snapshot, get_rubric_owned_by, get_rubric, create_rubric,
}
use rubric_grading_engine.Rubrics.Changes.{
  RubricChanges, update_rubric, delete_rubric, duplicate_rubric,
}
use rubric_grading_engine.Rubrics.Assigning.{get_class_owned_by, NewAssignment, create_assignment}
use rubric_grading_engine.Rubrics.Reading.{owned_iff}

-- The assignment that a creation makes, given the rubric and the tone.
abbrev pub assignment_of : Library → NewAssignment → Rubric → FeedbackTone → Assignment
assignment_of lib body r tone = record {
  id = body.id;
  class_id = body.class_id;
  rubric_id = body.rubric_id;
  rubric_snapshot = build_rubric_snapshot r (get_criteria_for_rubric lib.criteria body.rubric_id);
  title = body.title;
  prompt = body.prompt;
  due_date = body.due_date;
  status = draft;
  feedback_tone = tone;
  resubmission_enabled = false;
}

-- A creation is the load of the class, the load of the rubric, and the tone.
create_steps :
    (lib : Library) (t : ℕ) (body : NewAssignment)
    → create_assignment lib t body ≡ (
        get_class_owned_by lib.db body.class_id t >>= λ c.
        get_rubric_owned_by lib body.rubric_id t >>= λ r. tone_of body.feedback_tone >>= λ tone.
        let made = assignment_of lib body r tone in
        ok (
          record lib { db = record lib.db { assignments = lib.db.assignments ++ (made ∷ []) } },
          made,
        ))
unfolding create_assignment get_rubric_owned_by
create_steps lib t body = ground arith

-- The operations on rubrics, with their arguments.
pub data RubricCall : Type 0 where
  create : (ℕ → ℕ) → ℕ → ℕ → ℕ → String → Option String → List RubricCriterionRequest → RubricCall
  update : (ℕ → ℕ) → ℕ → ℕ → ℕ → RubricChanges → RubricCall
  delete : ℕ → ℕ → ℕ → RubricCall
  duplicate : (ℕ → ℕ) → ℕ → ℕ → ℕ → ℕ → RubricCall

-- The tables after a call, which one that raises leaves as they were.
abbrev after {ℓ} : {A : Type ℓ} → Library → Result (Library × A) → Library
after lib (ok (lib', _)) = lib'
after lib (err _) = lib

abbrev after_deletion : Library → Result Library → Library
after_deletion lib (ok lib') = lib'
after_deletion lib (err _) = lib

module _ (column : Decimal → ℕ) where
  unfoldable pub call : Library → RubricCall → Library
  call lib (create new_id now k t name description requests) =
      after lib (create_rubric column new_id now lib k t name description requests)
  call lib (update new_id now t k changes) =
      after lib (update_rubric column new_id now lib t k changes)
  call lib (delete now t k) = after_deletion lib (delete_rubric now lib t k)
  call lib (duplicate new_id now new_k t k) = after lib (duplicate_rubric new_id now lib new_k t k)

  unfoldable pub call_all : Library → List RubricCall → Library
  call_all lib [] = lib
  call_all lib (c ∷ cs) = call_all (call lib c) cs

  -- No operation on rubrics touches the other tables.
  call_keeps : (lib : Library) (c : RubricCall) → (call lib c).db ≡ lib.db
  unfolding call create_rubric update_rubric delete_rubric duplicate_rubric
  call_keeps lib (create new_id now k t name description requests) = ground arith
  call_keeps lib (update new_id now t k changes) = ground arith
  call_keeps lib (delete now t k) = ground arith
  call_keeps lib (duplicate new_id now new_k t k) = ground arith

  call-all_keeps : (lib : Library) (cs : List RubricCall) → (call_all lib cs).db ≡ lib.db
  unfolding call_all
  call-all_keeps lib [] = refl
  call-all_keeps lib (c ∷ cs) = call-all_keeps (call lib c) cs ∙ call_keeps lib c

  -- A new assignment is a draft in a class of the teacher. Its snapshot is that of the rubric and the
  -- criteria that the teacher reads at its creation, and it stands so in the assignments after any
  -- number of creations, updates, deletions and duplications of rubrics.
  pub create-assignment_snapshot :
      (lib lib' : Library) (t : ℕ) (body : NewAssignment) (a : Assignment) (cs : List RubricCall)
      → create_assignment lib t body ≡ ok (lib', a)
      → (loaded : Loaded) × (get_rubric lib t body.rubric_id ≡ ok loaded)
        × (a.rubric_snapshot ≡ build_rubric_snapshot loaded.0 loaded.1)
        × (a.status ≡ draft)
        × ((c : Class) × (get_class_owned_by lib.db body.class_id t ≡ ok c))
        × ((call_all lib' cs).db.assignments ≡ lib.db.assignments ++ (a ∷ []))
  unfolding get_rubric
  create-assignment_snapshot lib lib' t body a cs h =
      let (c, class, rest) =
        >>=-eq-ok (get_class_owned_by lib.db body.class_id t) _
          (sym (create_steps lib t body) ∙ h) in
      let (r, owned, rest') = >>=-eq-ok (get_rubric_owned_by lib body.rubric_id t) _ rest in
      let (tone, toned, end_) = >>=-eq-ok (tone_of body.feedback_tone) _ rest' in
      let (table, made) = ok-pair_injective _ lib' _ a end_ in
      let id =
        key-get body.rubric_id r lib.rubrics ((owned_iff lib body.rubric_id t r).0 owned).0 in
      (
        (r, get_criteria_for_rubric lib.criteria r.id),
        rw owned refl,
        ap (λ (x : Assignment). x.rubric_snapshot) made
            ∙ ap (λ k. build_rubric_snapshot r (get_criteria_for_rubric lib.criteria k)) (sym id),
        ap (λ (x : Assignment). x.status) made,
        (c, class),
        ap (λ (x : Db). x.assignments) (call-all_keeps lib' cs)
            ∙ ap (λ (x : Library). x.db.assignments) table
            ∙ ap (λ x. lib.db.assignments ++ (x ∷ [])) (sym made),
      )
