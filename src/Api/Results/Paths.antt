-- ===== src/Api/Results/Paths.antt =====
-- The paths of autosentinel/api/results.py and of the report are different for different jobs.
use auto_sentinel.Prelude.{String, ◌≡◌, ◌≢◌, ap, sym, ◌∙◌, inl, inr, false, Bool-cases, arith, ℕ}
use Prim.Native.Char.{Char, code}
use auto_sentinel.Prelude.Strings.{◌+++◌, ◌==◌, eq_iff}
use auto_sentinel.Prelude.Strings.Append.{
  append_cancel_left, append_cancel_right, last, last-append,
}
use auto_sentinel.Api.Results.{result_path, incoming_path}

-- The markdown file of a log with the stem.
abbrev pub report_path_of : String → String
report_path_of stem = "output/" +++ stem +++ "-report.md"

abbrev first : String → ℕ
first String.[] = 0
first (String.◌∷◌ c s) = code c

pub differ : (a b : String) → a ≢ b → (a == b) ≡ false
differ a b h = elim (Bool-cases (a == b)) [
  | inl same ↦ absurd (h ((eq_iff a b).0 same))
  | inr other ↦ other
]

pub differ_ne : (a b : String) → (a == b) ≡ false → a ≢ b
differ_ne a b h e = cc ((eq_iff a b).1 e)

pub result_path-differ :
    (a b : String) → (a == b) ≡ false → (result_path a == result_path b) ≡ false
result_path-differ a b h = differ (result_path a) (result_path b) λ e. differ_ne a b h (
    append_cancel_right a b "-result.json"
      (append_cancel_left "output/" (a +++ "-result.json") (b +++ "-result.json") e))

pub incoming_path-differ :
    (a b : String) → (a == b) ≡ false → (incoming_path a == incoming_path b) ≡ false
incoming_path-differ a b h = differ (incoming_path a) (incoming_path b) λ e. differ_ne a b h (
    append_cancel_right a b ".json"
      (append_cancel_left "data/incoming/" (a +++ ".json") (b +++ ".json") e))

pub result_path-incoming_path : (a b : String) → (result_path a == incoming_path b) ≡ false
unfolding ◌+++◌
result_path-incoming_path a b = differ (result_path a) (incoming_path b) λ e.
    let h : first (result_path a) ≡ first (incoming_path b) = ap first e in absurd (omega arith)

pub incoming_path-result_path : (a b : String) → (incoming_path a == result_path b) ≡ false
unfolding ◌+++◌
incoming_path-result_path a b = differ (incoming_path a) (result_path b) λ e.
    let h : first (incoming_path a) ≡ first (result_path b) = ap first e in absurd (omega arith)

pub report_path_of-incoming_path : (a b : String) → (report_path_of a == incoming_path b) ≡ false
unfolding ◌+++◌
report_path_of-incoming_path a b = differ (report_path_of a) (incoming_path b) λ e.
    let h : first (report_path_of a) ≡ first (incoming_path b) = ap first e in absurd (omega arith)

last_of_report : (d : Char) (a : String) → last d (a +++ "-report.md") ≡ last d "-report.md"
last_of_report d a = last-append d a _ _

last_of_result : (d : Char) (a : String) → last d (a +++ "-result.json") ≡ last d "-result.json"
last_of_result d a = last-append d a _ _

pub report_path_of-result_path : (a b : String) → (report_path_of a == result_path b) ≡ false
report_path_of-result_path a b = differ (report_path_of a) (result_path b) λ e.
    let f : a +++ "-report.md" ≡ b +++ "-result.json" = append_cancel_left "output/" _ _ e in
    let d : Char = "-" in
    let l = sym (last_of_report d a) ∙ ap (last d) f ∙ last_of_result d b in
    let m : code (last d "-report.md") ≡ code (last d "-result.json") = ap code l in
    absurd (omega arith)
