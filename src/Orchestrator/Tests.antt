-- ===== src/Orchestrator/Tests.antt =====
-- Concrete registries and passes: the theorems at inputs where their conditions hold.
use dev_harness.Base.{
  ◌+◌, ◌≡◌, ◌↔◌, refl, none, some, [], ◌∷◌, String, pos, negsuc, false, arith, length,
}
use dev_harness.Base.Dict.{Unique, lookup, All-lookup}
use dev_harness.Orchestrator.Registry.{WorkerEntry, Registry, running, done, get, sweep_stale}
use dev_harness.Orchestrator.Registry.Sweep.{Stale, sweep_stale_exact}
use dev_harness.Orchestrator.Monitor.{Probe, Answers, check_all, passes}
use dev_harness.Orchestrator.Monitor.Pass.{after_pass, check_all_pointwise}
use dev_harness.Orchestrator.Monitor.Restarts.{
  Healthy, AllHealthy, Answered, Dying, RunsOut, passes_keep_healthy, restarts_run_out,
}

abbrev worker : WorkerEntry
worker = record {
  bug_id = "BUG-1";
  process = 100;
  project_id = "7";
  project_web_url = "https://gitlab/x";
  job_id = "55";
  source_branch = "main";
  started_at = 0;
  warmup_deadline = 120_000;
  restart_count = 2;
  status = running;
  done_at = none;
}

abbrev finished : WorkerEntry
finished = record worker { bug_id = "BUG-2"; status = done; done_at = some 1000 }

abbrev workers : Registry
workers = ("BUG-1", worker) ∷ ("BUG-2", finished) ∷ []

-- The process exited with 1.
abbrev crash : Probe
crash = record {
  ttl = negsuc 1;
  returncode = some (pos 1);
  completed = false;
  stamp = 5000;
  started = some 200;
}

abbrev crashes : Answers
crashes = record { now = 5000; sweep_at = 5000; probe = λ bug_id. some crash }

workers-Unique : Unique workers
unfolding lookup
workers-Unique = (refl, (refl, tt))

crashes_answer : Answered crashes
crashes_answer bug_id e = cc

crashes_kill : Dying "BUG-1" crashes
crashes_kill = (
  crash,
  refl,
  record {
    exit_code = pos 1;
    exited = refl;
    failing = refl;
    incomplete = refl;
    process = 200;
    restartable = refl;
  },
)

worker_found : get "BUG-1" workers ≡ some worker
unfolding get lookup
worker_found = refl

workers_healthy : AllHealthy workers
unfolding get lookup
workers_healthy bug_id e h =
    All-lookup (λ entry. Healthy entry.1) bug_id e workers
      (
        record { restarts = omega arith; stamped = refl },
        (record { restarts = omega arith; stamped = refl }, tt),
      )
      h

sweep_stale_exact_example :
    (length (sweep_stale 9000 3000 workers).0 + (sweep_stale 9000 3000 workers).1 ≡ length workers)
    × ((get "BUG-2" (sweep_stale 9000 3000 workers).0 ≡ some finished)
        ↔ ((get "BUG-2" workers ≡ some finished) × (¬ Stale 9000 3000 finished)))
sweep_stale_exact_example = sweep_stale_exact 9000 3000 workers "BUG-2" finished workers-Unique

check_all_pointwise_example :
    (r' : Registry) × (check_all 60_000 crashes workers ≡ some r')
    × Unique r'
    × ((bug_id : String) → get bug_id r' ≡ after_pass 60_000 crashes bug_id (get bug_id workers))
check_all_pointwise_example =
    check_all_pointwise 60_000 crashes workers workers-Unique crashes_answer

passes_keep_healthy_example :
    (r' : Registry) × (passes 60_000 (crashes ∷ crashes ∷ []) workers ≡ some r')
    × Unique r'
    × AllHealthy r'
passes_keep_healthy_example =
    passes_keep_healthy 60_000 (crashes ∷ crashes ∷ []) workers
      (crashes_answer, (crashes_answer, tt)) workers-Unique workers_healthy

restarts_run_out_example : RunsOut 60_000 "BUG-1" (crashes ∷ crashes ∷ []) workers worker
restarts_run_out_example =
    restarts_run_out 1 60_000 (crashes ∷ crashes ∷ []) workers "BUG-1" worker refl refl
      (crashes_answer, (crashes_answer, tt)) (crashes_kill, (crashes_kill, tt)) workers-Unique
      worker_found refl
