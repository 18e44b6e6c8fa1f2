-- ===== src/Nodes/Report/Vocabulary.antt =====
-- The vocabulary of the sidecar that autosentinel/nodes/format_report.py writes.
use auto_sentinel.Prelude.{
  String, ◌≡◌, refl, Bool, true, false, ◌&&◌, ◌||◌, Option, none, some, List, [], ◌∷◌,
  if◌then◌else◌, arith,
}
use auto_sentinel.Prelude.Strings.{is_one_of}
use auto_sentinel.State.{AgentState, AnalysisResult}
use auto_sentinel.Nodes.Report.Sidecar.{
  look_up, or_text, error_category_map, specialist_map, v1_category_map, risk_map, v1_category,
  is_high_risk, derive_category, derive_severity, derive_risk,
}

abbrev values_in : List (String × String) → List String → Bool
values_in [] names = true
values_in ((k, v) ∷ table) names = is_one_of v names && values_in table names

-- What a table gives, or its default, is one of the names if its values and the default are.
or_text-look_up :
    (table : List (String × String)) (names : List String) (d : String) (o : Option String)
    → values_in table names ≡ true
    → is_one_of d names ≡ true
    → is_one_of (or_text d (look_up table o)) names ≡ true
unfolding look_up
or_text-look_up table names d none h e = e
or_text-look_up [] names d (some k) h e = e
or_text-look_up ((j, v) ∷ table) names d (some k) h e =
    ground (arith, or_text-look_up table names d (some k))

abbrev pub categories : List String
categories = "runtime" ∷ "build" ∷ "infra" ∷ "config" ∷ "unknown" ∷ []

abbrev pub severities : List String
severities = "low" ∷ "medium" ∷ "high" ∷ "critical" ∷ []

abbrev pub risks : List String
risks = "low" ∷ "medium" ∷ "high" ∷ []

v1_category_known : (a : Option AnalysisResult) → is_one_of (v1_category a) categories ≡ true
unfolding is_one_of
v1_category_known none = refl
v1_category_known (some r) =
    or_text-look_up v1_category_map categories "unknown" (some r.error_category) refl refl

category_known :
    (st : AgentState) (a : Option AnalysisResult)
    → is_one_of (derive_category st a) categories ≡ true
unfolding is_one_of derive_category
category_known st a = or_text-look_up error_category_map categories _ st.error_category refl (
    or_text-look_up specialist_map categories (v1_category a) st.specialist refl
      (v1_category_known a))

grade_known : (b : Bool) → is_one_of (if b then "high" else "medium") severities ≡ true
unfolding is_one_of
grade_known true = refl
grade_known false = refl

-- Whatever the state holds, the category, the severity and the risk level of the sidecar are words of
-- the vocabulary that the gateway's models document.
pub vocabulary :
    (st : AgentState) (a : Option AnalysisResult)
    → (is_one_of (derive_category st a) categories ≡ true)
      × (is_one_of (derive_severity st) severities ≡ true)
      × (is_one_of (derive_risk st) risks ≡ true)
unfolding is_one_of derive_severity derive_risk
vocabulary st a = (
  category_known st a,
  grade_known (is_high_risk st.security_verdict || st.approval_required),
  or_text-look_up risk_map risks "medium" st.security_verdict refl refl,
)
