-- ===== src/Storage/Tests.antt =====
-- Reports of concrete machines.
use sky_flow.Base.{ℕ, ◌≡◌, refl, true, false, List, [], ◌∷◌, ◌++◌, map, none, some, arith}
use sky_flow.Base.Int.{ℤ, pos}
use sky_flow.Base.Floats.{hundredths}
use sky_flow.Base.Text.{Text, codes, ◌≟◌}
use sky_flow.Base.Dict.{lookup}
use sky_flow.Chunk.Parts.{itoa, parse_int}
use sky_flow.Telemetry.{LinkCongestionInfo}
use sky_flow.Storage.{
  VmReport, Writing, report, file_name, put, put_entry, before, stamp_of, has_prefix, get, get_loop,
  read_report, get_all,
}
use sky_flow.Storage.Saved.{put_all, history, IsNewest}
use sky_flow.Storage.Receives.{
  Post, decoded, bad_report, post_all, accepted, validate_errors, empty_vm_id, no_memory,
}
use sky_flow.Storage.Posted.{no_reports, get-post_all}
use sky_flow.Storage.Averages.{no_task, NodeConfig, calculate}
use sky_flow.Storage.Samples.{all_links, links_to}
use sky_flow.Storage.Links.{mean_link, calculate-mean_link}

abbrev link : Text → ℤ → LinkCongestionInfo ℤ
link ip loss = record {
  target_ip = ip;
  target = no_task;
  packet_loss = loss;
  weighted_cache = pos 0;
  average_latency = pos 20;
  bandwidth_usage = pos 0;
}

abbrev report_of : Text → Text → VmReport ℤ
report_of vm id = record {
  vm_id = vm;
  collect_time = none;
  report_id = id;
  physical_core = pos 2;
  logical_core = pos 4;
  memory_total = 1024;
  public_ip = codes "1.2.3.4";
  port_count = pos 0;
  congestion = record { active_connections = pos 3; avg_cache_per_conn = pos 2 };
  links_congestion = link (codes "b") (pos 4) ∷ link (codes "c") (pos 1) ∷ [];
}

abbrev at : ℕ → Writing
at millis = record {
  marshals = true;
  writes = true;
  leaves_file = false;
  renames = true;
  removes = true;
  millis = millis;
  nanos = 0;
  modified = pos millis;
}

-- The last one first: a machine with a longer name, and a write that fails.
abbrev calls : List (Writing × VmReport ℤ)
calls =
    (at 1300, report_of (codes "a_1") (codes "z"))
    ∷ (record (at 1200) { writes = false }, report_of (codes "a") (codes "w"))
    ∷ (at 1100, report_of (codes "a") (codes "y"))
    ∷ (at 900, report_of (codes "a") (codes "x"))
    ∷ []

abbrev post : Writing × VmReport ℤ → Post ℤ
post (w, r) = record { writing = w; now = pos 5; uuid = codes "u"; body = decoded r }

-- The same calls as requests, after one that is no report and one without memory.
abbrev posts : List (Post ℤ)
posts =
    map post calls
    ++ record (post (at 800, report_of (codes "a") [])) { body = bad_report }
      ∷ post (at 2000, record (report_of (codes "a") []) { memory_total = 0 })
      ∷ []

get-post_all_example :
    IsNewest
      (codes "a")
      (history (accepted posts))
      (get (λ name. true) (codes "a") (some (post_all posts no_reports).storage))
get-post_all_example =
    get-post_all (codes "a") posts (λ q. cc q)
      (
        (omega arith, refl, refl),
        (
          (omega arith, refl, refl),
          (
            (omega arith, refl, refl),
            (
              (omega arith, refl, refl),
              ((omega arith, refl, refl), ((omega arith, refl, refl), tt)),
            ),
          ),
        ),
      )

no_memory_refused :
    validate_errors (record (report_of [] []) { memory_total = 0 }) ≡ empty_vm_id ∷ no_memory ∷ []
unfolding validate_errors ◌≟◌
no_memory_refused = refl

newest_report :
    get (λ name. true) (codes "a") (some (put_all calls))
    ≡ report (report_of (codes "a") (codes "y"))
unfolding get get_loop read_report put_all put put_entry before file_name stamp_of has_prefix itoa
    parse_int ◌≟◌
newest_report = refl

abbrev here : NodeConfig
here = record { public_ip = codes "n"; provider = codes "gcp"; continent = codes "EU" }

calculate-mean_link_example :
    lookup
      (codes "b")
      (calculate hundredths (get_all (λ name. true) (put_all calls)) here (pos 0)).links_congestion
    ≡ mean_link hundredths
        (codes "b")
        (links_to (codes "b") (all_links (get_all (λ name. true) (put_all calls))))
calculate-mean_link_example =
    calculate-mean_link hundredths (get_all (λ name. true) (put_all calls)) here (pos 0) (codes "b")

-- Two machines, of which one has sent two reports, count as three.
counts_reports :
    (calculate hundredths
      (get_all (λ name. true) (put_all calls))
      here
      (pos 0)).node_congestion.vm_count
    ≡ 3
unfolding calculate get_all put_all put put_entry before file_name itoa ◌≟◌
counts_reports = refl
