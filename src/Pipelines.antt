-- ===== src/Pipelines.antt =====
-- src/pipelines.py: the pipelines that run commands and then ask a model about their output. The shell is
-- a parameter; a result's `details` are data rather than a dict.
pub mod Prompts
pub mod Health
pub mod Verdicts
mod Tests
use Prim.Native.String.{String}
use aieos_agent_harness.Base.{
  ℕ, zero, suc, ◌-◌, ◌<>◌, decimal, string_eq, Bool, true, false, Option, none, some, List, [], ◌∷◌,
  ◌++◌, map, ◌==◌, if◌then◌else◌,
}
use aieos_agent_harness.Base.Lists.{all, length}
use aieos_agent_harness.Base.Integer.{ℤ, pos, negsuc}
use aieos_agent_harness.Base.Dict.{Dict}
use aieos_agent_harness.Adapter.{ok, err, Call, Adapter}
use aieos_agent_harness.Models.{AgentRequest, LifecycleEvent, post_validation, pre_generation}
use aieos_agent_harness.Cicd.Agents.{is_zero}
use aieos_agent_harness.State.Cells.{text_size}
use Prompts.{ord_prompt, analysis_prompt}

-- What `subprocess.run` comes to: an end with its output, a timeout, or another exception, with its text.
pub data Ran : Type 0 where
  finished : ℤ → (stdout stderr : String) → Ran
  timed_out raised : (exc : String) → Ran

-- A command run in a shell, by its text.
abbrev pub Shell : Type 0 → Type 0
Shell W = String → W → Ran × W

pub record CheckResult : Type 0 where
  pub check : String
  pub command : String
  pub exit_code : ℤ
  pub stdout : String
  pub stderr : String

pub data Details : Type 0 where
  checks : List CheckResult → (all_tool_checks_passed : Bool) → Details
  tools_run : ℕ → Details
  metrics_collected : ℕ → (slo_baselines : Dict String String) → Details

pub record PipelineResult : Type 0 where
  pub tool_output : String
  pub ai_assessment : String
  pub status : String
  pub details : Details

unfoldable pub drop_text : ℕ → String → String
drop_text zero s = s
drop_text (suc n) String.[] = String.[]
drop_text (suc n) (String.◌∷◌ c s) = drop_text n s

-- `s[-n:]`, for a positive n
unfoldable pub last : ℕ → String → String
last n s = drop_text (text_size s - n) s

unfoldable pub joined_by : String → List String → String
joined_by sep [] = ""
joined_by sep (s ∷ []) = s
joined_by sep (s ∷ t ∷ rest) = s <> sep <> joined_by sep (t ∷ rest)

-- `str` of an integer
unfoldable pub integer_text : ℤ → String
integer_text (pos n) = decimal n
integer_text (negsuc n) = "-" <> decimal (suc n)

unfoldable pub failed_check : String → String → String → CheckResult
failed_check check command stderr = record {
  check = check;
  command = command;
  exit_code = negsuc 0;
  stdout = "";
  stderr = stderr;
}

unfoldable pub finished_check : String → String → ℤ → String → String → CheckResult
finished_check check command code stdout stderr = record {
  check = check;
  command = command;
  exit_code = code;
  stdout = stdout;
  stderr = stderr;
}

-- `ORDVerificationPipeline._run_command`
unfoldable pub ord_check : String → String → Ran → CheckResult
ord_check check command (finished code out e) = finished_check check command code out e
ord_check check command (timed_out exc) =
    failed_check check command "Command timed out after 300 seconds"
ord_check check command (raised exc) = failed_check check command exc

-- `_run_command` of the two other pipelines, to which a timeout is an exception as any other.
unfoldable pub plain_check : String → String → Ran → CheckResult
plain_check check command (finished code out e) = finished_check check command code out e
plain_check check command (timed_out exc) = failed_check check command exc
plain_check check command (raised exc) = failed_check check command exc

-- A request of a pipeline.
unfoldable pub pipeline_request :
    String
    → LifecycleEvent
    → (spec prompt : String) → Dict String String
    → (name : String) → AgentRequest
pipeline_request artifact_type event spec prompt upstream name = record {
  artifact_type = artifact_type;
  event = event;
  spec_content = spec;
  template_content = "";
  prompt_content = prompt;
  upstream_artifacts = upstream;
  current_artifact = none;
  correction_constraints = [];
  metadata = ("pipeline", name) ∷ [];
  declared_inputs = [];
  temperature = none;
}

-- A command that is given, `none` or empty where it is not.
abbrev pub Command : Type 0
Command = Option String

-- The checks that are configured, with their commands.
unfoldable pub configured : List (String × Command) → List (String × String)
configured [] = []
configured ((check, none) ∷ rest) = configured rest
configured ((check, some command) ∷ rest) =
    let others = configured rest in if command == "" then others else (check, command) ∷ others

unfoldable pub passed : CheckResult → Bool
passed r = is_zero r.exit_code

unfoldable pub ord_section : CheckResult → String
ord_section r =
    "### "
    <> r.check
    <> "\nExit code: "
    <> integer_text r.exit_code
    <> "\n```\n"
    <> last 2000 r.stdout
    <> "\n```"

unfoldable pub analysis_section : CheckResult → String
analysis_section r = "### " <> r.check <> "\n```\n" <> last 3000 r.stdout <> "\n```"

pub record OrdVerification : Type 0 where
  pub test_cmd : String
  pub build_cmd : Command
  pub lint_cmd : Command

pub record CodebaseAnalysis : Type 0 where
  pub sast_cmd : Command
  pub lint_cmd : Command
  pub deps_cmd : Command
  pub coverage_cmd : Command

unfoldable pub ord_commands : OrdVerification → List (String × String)
ord_commands p =
    ("test_suite", p.test_cmd) ∷ configured (("build", p.build_cmd) ∷ ("lint", p.lint_cmd) ∷ [])

unfoldable pub ord_result : List CheckResult → String → PipelineResult
ord_result results assessment = record {
  tool_output = joined_by "\n\n" (map ord_section results);
  ai_assessment = assessment;
  status = if all passed results then "pass" else "fail";
  details = checks results (all passed results);
}

unfoldable pub ord_request : List CheckResult → String → AgentRequest
ord_request results ord_content =
    pipeline_request "ORD-verification" post_validation ord_content ord_prompt
      (("tool_results", joined_by "\n\n" (map ord_section results)) ∷ []) "ord_verification"

unfoldable pub analysis_commands : CodebaseAnalysis → List (String × String)
analysis_commands p = configured (
    ("sast", p.sast_cmd)
    ∷ ("lint", p.lint_cmd)
    ∷ ("dependencies", p.deps_cmd)
    ∷ ("coverage", p.coverage_cmd)
    ∷ [])

abbrev pub find_command : String
find_command = "find . -name '*.py' -o -name '*.ts' -o -name '*.js' -o -name '*.go' | head -100"

-- The tree of files, left out where `find` raises; its exit code is not looked at.
unfoldable pub file_structure : Ran → List CheckResult
file_structure (finished code out e) = finished_check "file_structure" "find" (pos 0) out "" ∷ []
file_structure (timed_out exc) = []
file_structure (raised exc) = []

unfoldable pub analysis_request : List CheckResult → String → AgentRequest
analysis_request results description =
    pipeline_request "codebase-analysis" pre_generation "" (analysis_prompt description)
      (("tool_results", joined_by "\n\n" (map analysis_section results)) ∷ []) "codebase_analysis"

module _ {W : Type 0} (shell : Shell W) where
  -- Commands one after the other, each with what its end is recorded as.
  unfoldable pub run_commands :
      (String → String → Ran → CheckResult) → List (String × String) → W → List CheckResult × W
  run_commands result [] w = ([], w)
  run_commands result ((check, command) ∷ rest) w =
      let (ran, w1) = shell command w in
      let (results, w2) = run_commands result rest w1 in (result check command ran ∷ results, w2)

  -- `ORDVerificationPipeline.verify`
  unfoldable pub verify : Adapter W → OrdVerification → String → Call W String PipelineResult
  verify ai p ord_content w =
      let (results, w1) = run_commands ord_check (ord_commands p) w in
      let (answer, w2) = ai.invoke (ord_request results ord_content) w1 in
      elim answer [
        | ok response ↦ (ok (ord_result results response.content), w2)
        | err e ↦ (err e, w2)
      ]

  -- `CodebaseAnalysisPipeline.analyze`
  unfoldable pub analyze : Adapter W → CodebaseAnalysis → String → Call W String PipelineResult
  analyze ai p description w =
      let (results, w1) = run_commands plain_check (analysis_commands p) w in
      let (ran, w2) = shell find_command w1 in
      let tools = results ++ file_structure ran in
      let (answer, w3) = ai.invoke (analysis_request tools description) w2 in
      elim answer [
        | err e ↦ (err e, w3)
        | ok response ↦ (
          ok (record {
            tool_output = joined_by "\n\n" (map analysis_section tools);
            ai_assessment = response.content;
            status = "complete";
            details = tools_run (length tools);
          }),
          w3,
        )
      ]
