-- ===== src/Worker/Tests.antt =====
-- Two calls of scan before the worker is ready, and one with an empty request id.
use veilforge.Worker.Limits.{
  Key, max_file_count, max_project_bytes, max_worker_project_bytes, web_v4_limits, set_limit,
  normalize_web_v4_limits, InRange, normalize_web_v4_limits_bounds,
}
use veilforge.Base.{some, none, ℕ, Option, ◌≤◌, ◌≡◌, refl, List, [], ◌∷◌}
use veilforge.Base.Text.{codes}
use veilforge.Worker.Client.{
  Outcome, resolved, rejected, Active, Client, new_client, ready_message, result_message,
  scan_request,
}
use veilforge.Worker.Calls.{Event, scan_called, resumed, received, fired, run}
use veilforge.Worker.Owned.{owners, IsClient}
use veilforge.Worker.Runs.{run-IsClient}

abbrev two_scans : List Event
two_scans =
    scan_called (codes "a")
    ∷ scan_called (codes "b")
    ∷ received ready_message
    ∷ resumed none
    ∷ resumed none
    ∷ received (result_message (codes "a") 1)
    ∷ received (result_message (codes "b") 2)
    ∷ []

-- Both scans are sent to the worker, and only the second is ever settled.
both_sent :
    (run two_scans new_client).posted ≡ scan_request (codes "a") ∷ scan_request (codes "b") ∷ []
unfolding owners run veilforge.Worker.Owned.waits veilforge.Worker.Owned.holds
    veilforge.Worker.Owned.settles veilforge.Worker.Calls.step veilforge.Worker.Calls.scan
    veilforge.Worker.Calls.resume veilforge.Worker.Calls.resume_first
    veilforge.Worker.Client.on_message veilforge.Worker.Client.with_ready
    veilforge.Worker.Client.complete
both_sent = refl

second_settled : (run two_scans new_client).settled ≡ (1, resolved 2) ∷ []
unfolding owners run veilforge.Worker.Owned.waits veilforge.Worker.Owned.holds
    veilforge.Worker.Owned.settles veilforge.Worker.Calls.step veilforge.Worker.Calls.scan
    veilforge.Worker.Calls.resume veilforge.Worker.Calls.resume_first
    veilforge.Worker.Client.on_message veilforge.Worker.Client.with_ready
    veilforge.Worker.Client.complete
second_settled = refl

first_lost : owners 0 (run two_scans new_client) ≡ 0
unfolding owners run veilforge.Worker.Owned.waits veilforge.Worker.Owned.holds
    veilforge.Worker.Owned.settles veilforge.Worker.Calls.step veilforge.Worker.Calls.scan
    veilforge.Worker.Calls.resume veilforge.Worker.Calls.resume_first
    veilforge.Worker.Client.on_message veilforge.Worker.Client.with_ready
    veilforge.Worker.Client.complete
first_lost = refl

-- A scan with an empty request id is rejected before it is posted, and its timeout cannot abort it: the
-- client takes no other scan.
abbrev empty_id : List Event
empty_id =
    scan_called []
    ∷ received ready_message
    ∷ resumed none
    ∷ fired 0 none
    ∷ scan_called (codes "b")
    ∷ []

run-IsClient_example : IsClient (run empty_id new_client)
run-IsClient_example = run-IsClient empty_id

scan_thrown : (run empty_id new_client).thrown ≡ (0, "WEB_V4_PROTOCOL_INVALID") ∷ []
unfolding owners run veilforge.Worker.Owned.waits veilforge.Worker.Owned.holds
    veilforge.Worker.Owned.settles veilforge.Worker.Calls.step veilforge.Worker.Calls.scan
    veilforge.Worker.Calls.resume veilforge.Worker.Calls.resume_first
    veilforge.Worker.Client.on_message veilforge.Worker.Client.with_ready
    veilforge.Worker.Client.complete
scan_thrown = refl

still_busy : (run empty_id new_client).settled ≡ (1, rejected "WEB_V4_WORKER_BUSY") ∷ []
unfolding owners run veilforge.Worker.Owned.waits veilforge.Worker.Owned.holds
    veilforge.Worker.Owned.settles veilforge.Worker.Calls.step veilforge.Worker.Calls.scan
    veilforge.Worker.Calls.resume veilforge.Worker.Calls.resume_first
    veilforge.Worker.Client.on_message veilforge.Worker.Client.with_ready
    veilforge.Worker.Client.complete
still_busy = refl

-- A smaller file count is asked for.
abbrev ten_files : List (Option Key × Option ℕ)
ten_files = (some max_file_count, some 10) ∷ []

abbrev ten_files_limits : Key → ℕ
ten_files_limits = set_limit max_file_count 10 web_v4_limits

ten_files_accepted : normalize_web_v4_limits ten_files ≡ some ten_files_limits
unfolding normalize_web_v4_limits veilforge.Worker.Limits.set_limits
ten_files_accepted = refl

normalize_web_v4_limits_bounds_example :
    InRange ten_files_limits
    × (ten_files_limits max_project_bytes ≤ ten_files_limits max_worker_project_bytes)
normalize_web_v4_limits_bounds_example =
    normalize_web_v4_limits_bounds ten_files ten_files_limits ten_files_accepted
