-- ===== src/Tests/Holdout.antt =====
-- The theorem on scripts/run_holdout_eval.py at a model that replies in prose.
use auto_sentinel.Prelude.{◌+◌, ◌≡◌, refl, inl, inr, List, [], ◌∷◌}
use auto_sentinel.Prelude.Int.{pos}
use auto_sentinel.Effects.{cny, ok}
use auto_sentinel.Llm.Protocol.{LlmClient, LlmRequest, LlmResponse}
use auto_sentinel.Agents.Supervisor.{run}
use auto_sentinel.Holdout.{HoldoutIncident, Outcome, evaluate_all, hits, rstrip_slash}
use auto_sentinel.Holdout.Baseline.{default_count, hits-unreadable}
use auto_sentinel.Tests.{World, idle, python, services, config}

abbrev remark : LlmRequest → LlmResponse
remark req = record {
  content = "I think it is the network.";
  model = req.model;
  prompt_tokens = pos 10;
  completion_tokens = pos 5;
  cost = pos 3;
  currency = cny;
  latency_ms = pos 20;
  trace_id = req.trace_id;
}

abbrev prose : LlmClient World
prose req w = (ok (remark req), record w { calls = w.calls + 1 })

abbrev incidents : List HoldoutIncident
incidents =
    (record { id = "h1"; error_log = "refused"; expected_category = "INFRA" })
    ∷ (record { id = "h2"; error_log = "None"; expected_category = "CODE" })
    ∷ []

hits-unreadable_example :
    (os : List Outcome) × (t : World) × (evaluate_all services.token_hex
        (run python prose config)
        incidents
        idle
      ≡ (ok os, t))
    × (hits os ≡ default_count incidents)
hits-unreadable_example =
    hits-unreadable python prose config services.token_hex
      (λ s. ("0123456789abcdef0123456789abcdef", s, refl, tt))
      (λ r s. (remark r, record s { calls = s.calls + 1 }, refl, ("Expecting value", refl)))
      incidents idle (inr (inl refl), (inl refl, tt))

trimmed : rstrip_slash "https://host/api//" ≡ "https://host/api"
unfolding rstrip_slash
trimmed = refl
