-- ===== src/Pipelines/Prompts.antt =====
-- src/pipelines.py: the prompts of the three pipelines.
use aieos_agent_harness.Base.{String, ◌<>◌}

unfoldable pub ord_prompt : String
ord_prompt =
    "You are assessing operational readiness. Below are the results of automated "
    <> "verification checks (test suite, build, lint). Assess whether the system "
    <> "meets operational readiness criteria based on these results and the ORD "
    <> "spec.\n\nProduce a JSON response with: status (pass/fail/warning), summary "
    <> "(one sentence), checks (per-check pass/fail), and recommendations (list of " <> "strings)."

unfoldable pub analysis_prompt : String → String
analysis_prompt initiative_description =
    "You are analyzing an existing codebase for AIEOS governance onboarding. "
    <> "Below are the results of automated analysis tools. Produce a structured "
    <> "analysis covering:\n\n1. **Architecture Context (ACF input):** Technology "
    <> "stack, runtime, frameworks, dependencies, deployment model\n2. **Design "
    <> "Context (DCF input):** Code quality findings, testing patterns, linting "
    <> "standards, security posture\n3. **Component Inventory (SAD input):** Major "
    <> "components identified from file structure, their responsibilities, and "
    <> "interactions\n4. **Risks and Concerns:** Security findings, outdated "
    <> "dependencies, code quality issues that should be addressed\n\nInitiative " <> "context: "
    <> initiative_description <> "\n"

unfoldable pub health_prompt : String → String
health_prompt slo_context =
    "You are conducting a Reliability Health Review (RHR). Below are operational "
    <> "metrics and health check results. Assess system health against SLO "
    <> "baselines.\n\nProduce a structured assessment covering:\n1. **SLO "
    <> "Compliance:** Each SLO metric vs baseline (met/breached)\n2. **Trends:** Is "
    <> "performance improving, stable, or degrading?\n3. **Incidents:** Any health "
    <> "check failures or anomalies?\n4. **Recommendations:** Prioritized actions "
    <> "for next review period\n5. **Overall Status:** healthy / degraded / critical\n"
    <> slo_context <> "\n"
