-- ===== src/Driver/Converged.antt =====
-- src/driver.py: what stands behind an artifact that is reported as converged.
use aieos_agent_harness.Base.{
  String, string_eq, option_eq, ◌≡◌, refl, inl, inr, true, false, Bool-cases, Option-cases, ◌==◌,
  arith,
}
use aieos_agent_harness.Adapter.{ok, Outcome-cases, ◌>>◌, rethrow, bind-ok, rethrow-ok}
use aieos_agent_harness.Base.Lists.{All}
use aieos_agent_harness.Convergence.{RunResult, run}
use aieos_agent_harness.Convergence.Soundness.{IsJudged, run-IsJudged}
use aieos_agent_harness.Driver.{
  Platform, HarnessDriver, Requests, Root, is_frozen, persist_verdicts, conclude_artifact,
  run_requests, generate, run_artifact, requests_for, driver_loop, loop_raised,
}
use aieos_agent_harness.Invariants.{upstream_dependencies, check_freeze_before_promote}
use aieos_agent_harness.Kits.{
  resolve_kit_files, resolve_declared_inputs, validator_prompt, collect_upstream_artifacts,
}
use aieos_agent_harness.Kits.Inputs.{IsFrozenEntry, collect_upstream-Frozen}
use aieos_agent_harness.Models.{converged}
use aieos_agent_harness.State.{read_frozen_artifacts}

module _ {W : Type 0} (p : Platform W) (self : HarnessDriver W) where
  -- A run of the loop that ended with PASS, on a request to the generator and one to the judge, both
  -- for the type and with frozen upstream artifacts only.
  pub record IsBacked (artifact_type : String) (w : W) : Type 0 where
    pub requests : Requests
    pub result : RunResult
    pub after : W
    pub ran : run p.codec (driver_loop p self) requests.gen requests.val w ≡ (ok result, after)
    pub passed : result.result.status ≡ "PASS"
    pub judged :
        IsJudged p.codec
          (driver_loop p self)
          requests.gen
          requests.val
          result.response
          result.result
    pub of_type : requests.gen.artifact_type ≡ artifact_type
    pub upstream : All IsFrozenEntry requests.gen.upstream_artifacts
    pub judged_type : requests.val.artifact_type ≡ artifact_type
    pub judged_upstream : All IsFrozenEntry requests.val.upstream_artifacts

  conclude-passed :
      (artifact_type : String) (r : RunResult) (w w' : W)
      → conclude_artifact p self artifact_type r w ≡ (ok converged, w')
      → r.result.status ≡ "PASS"
  unfolding conclude_artifact
  conclude-passed artifact_type r w w' h = elim (Bool-cases (r.result.status == "PASS")) [
    | inl e ↦ ground arith
    | inr e ↦ absurd (ground (arith, h, e))
  ]

  run_requests-IsBacked :
      (artifact_type : String) (requests : Requests) (w w' : W)
      → run_requests p self artifact_type requests w ≡ (ok converged, w')
      → requests.gen.artifact_type ≡ artifact_type
      → All IsFrozenEntry requests.gen.upstream_artifacts
      → requests.val.artifact_type ≡ artifact_type
      → All IsFrozenEntry requests.val.upstream_artifacts
      → IsBacked artifact_type w
  unfolding run_requests
  run_requests-IsBacked artifact_type requests w w' h t u t' u' =
      let m = run p.codec (driver_loop p self) requests.gen requests.val in
      let (r, w1, h1, h2) =
        bind-ok (rethrow loop_raised m)
          (λ r. persist_verdicts p self artifact_type r >> conclude_artifact p self artifact_type r)
          w w' converged h in
      let (_, w2, h3, h4) =
        bind-ok (persist_verdicts p self artifact_type r)
          (λ _. conclude_artifact p self artifact_type r) w1 w' converged h2 in
      let ran = rethrow-ok loop_raised m w w1 r h1 in
      let pass = conclude-passed artifact_type r w2 w' h4 in
      record {
        requests = requests;
        result = r;
        after = w1;
        ran = ran;
        passed = pass;
        judged =
            run-IsJudged p.codec (driver_loop p self) requests.gen requests.val w w1 r ran pass;
        of_type = t;
        upstream = u;
        judged_type = t';
        judged_upstream = u';
      }

  generate-IsBacked :
      (root : Root) (artifact_type : String) (w w' : W)
      → generate p self root artifact_type w ≡ (ok converged, w')
      → IsBacked artifact_type w
  unfolding generate
  generate-IsBacked root artifact_type w w' h =
      let files = resolve_kit_files p.lower root.kits artifact_type in
      elim (Bool-cases (files.spec == "")) [
        | inl e ↦ absurd (let k = rw (e, generate) at h in cc)
        | inr e ↦
            elim (Outcome-cases (
              resolve_declared_inputs p.lower root.manifest root.framework (p.human w)
                artifact_type)) [
                  | inr (x, q) ↦ absurd (let k = rw (e, q, generate) at h in cc)
                  | inl (declared, q) ↦
                      run_requests-IsBacked artifact_type
                        (requests_for self.path artifact_type files
                          (validator_prompt (p.lower artifact_type) root.kits)
                          (collect_upstream_artifacts (p.disk w)) declared)
                        w w' (rw (e, q, generate) at h) (unfold requests_for in refl)
                        (unfold requests_for in collect_upstream-Frozen (p.disk w))
                        (unfold requests_for in refl)
                        (unfold requests_for in collect_upstream-Frozen (p.disk w))
                ]
      ]

  -- What `run_artifact` reports as converged was not frozen when it began, had the upstream
  -- artifacts that its type needs frozen, and is backed by a run of the loop from that very world:
  -- the run passed, its response was judged as it stands, and both the generation request and the
  -- validation request that the run was given are for the type and carry frozen upstream artifacts
  -- only.
  pub run_artifact-converged :
      (artifact_type : String) (w w' : W)
      → run_artifact p self artifact_type w ≡ (ok converged, w')
      → (is_frozen p self artifact_type w ≡ false)
        × (check_freeze_before_promote upstream_dependencies
              (read_frozen_artifacts (p.disk w))
              artifact_type
            ≡ true)
        × IsBacked artifact_type w
  unfolding run_artifact
  run_artifact-converged artifact_type w w' h =
      let check =
        check_freeze_before_promote upstream_dependencies (read_frozen_artifacts (p.disk w))
          artifact_type in
      elim (Option-cases self.root) [
        | inl e ↦ absurd (let k = rw (e, run_artifact) at h in cc)
        | inr (root, e) ↦ elim (Bool-cases (is_frozen p self artifact_type w)) [
          | inl f ↦ absurd (let k = rw (e, f, run_artifact) at h in cc)
          | inr f ↦ elim (Bool-cases check) [
            | inl c ↦
                (f, c, generate-IsBacked root artifact_type w w' (rw (e, f, c, run_artifact) at h))
            | inr c ↦ absurd (let k = rw (e, f, c, run_artifact) at h in cc)
          ]
        ]
      ]
