-- ===== src/Approvals/Changes.antt =====
-- internal/handlers/mail_approval_flow.go: what an edit and a resubmission change (variableChanges, and
-- the changes of resubmit).
use skymail_backend.Prelude.{
  ℕ, Bool, true, false, ◌&&◌, ◌||◌, not, Option, none, some, List, [], ◌∷◌, ◌++◌, Text, codes, map,
  select, is_some, text_eq, ltb, ◌==◌, if◌then◌else◌,
}
use skymail_backend.Approvals.{Variables, Approval, Resubmission}

abbrev value_of : Text → Variables → Option Text
value_of name [] = none
value_of name (v ∷ vs) = if text_eq v.0 name then some v.1 else value_of name vs

abbrev same_value : Option Text → Option Text → Bool
same_value none none = true
same_value (some a) (some b) = text_eq a b
same_value _ _ = false

-- Whether a text comes before another in the order of their bytes.
abbrev before : Text → Text → Bool
before [] y = true
before (a ∷ x) [] = false
before (a ∷ x) (b ∷ y) = ltb a b || (a == b && before x y)

abbrev insert_name : Text → List Text → List Text
insert_name x [] = x ∷ []
insert_name x (y ∷ ys) = if before x y then x ∷ y ∷ ys else y ∷ insert_name x ys

-- sort.Strings
abbrev sort_names : List Text → List Text
sort_names [] = []
sort_names (x ∷ xs) = insert_name x (sort_names xs)

-- variableChanges
unfoldable pub variable_changes : Variables → Variables → List Text
variable_changes was is =
    let names =
      map (λ (v : Text × Text). v.0) was
      ++ select (λ n. not (is_some (value_of n was))) (map (λ (v : Text × Text). v.0) is) in
    select (λ n. not (same_value (value_of n was) (value_of n is))) (sort_names names)

abbrev same_id : Option ℕ → Option ℕ → Bool
same_id none none = true
same_id (some a) (some b) = a == b
same_id _ _ = false

abbrev same_people : List Text → List Text → Bool
same_people [] [] = true
same_people (a ∷ x) (b ∷ y) = text_eq a b && same_people x y
same_people _ _ = false

-- Whether audienceJSON of the two is the same: the Forms source, or the list, or the people.
abbrev same_audience : Approval → Resubmission → Bool
same_audience a s =
    same_id a.form_source_id s.form_source_id
    && (is_some a.form_source_id
        || (same_id a.mail_list_id s.mail_list_id
            && (is_some a.mail_list_id || same_people a.recipients s.recipients)))

-- What a resubmission changes: the audience, the template, and the variables.
unfoldable pub resubmit_changes : Approval → Resubmission → List Text
unfolding variable_changes
resubmit_changes a s =
    (if same_audience a s then [] else codes "audience" ∷ [])
    ++ ((if a.template_id == s.template_id && a.template_version_id == s.version_id
          then []
          else codes "template" ∷ [])
        ++ variable_changes a.body_variables s.variables)
