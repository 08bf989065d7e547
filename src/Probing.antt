-- ===== src/Probing.antt =====
-- The probes of a machine (data-plane/probing/tcpprobe.go): a round sends each target to one of the
-- workers, which dials it several times, and the latest results are kept by address. What a dial answers
-- is an argument; the workers are a step relation, in which each finishes when it will. A target that is
-- listed twice would be dialled as often, with answers of its own.
pub mod Rounds
pub mod Latest
mod Tests
use sky_flow.Base.{
  ℕ, zero, suc, ◌+◌, ◌<◌, Bool, true, false, List, [], ◌∷◌, ◌++◌, length, ltb, if◌then◌else◌,
}
use sky_flow.Base.Int.{ℤ, pos, ltb_ℤ}
use sky_flow.Base.Word.{add64, div64}
use sky_flow.Base.Text.{Text}
use sky_flow.Base.Dict.{Dict, insert}
use sky_flow.Base.Floats.{FloatOps}
use sky_flow.Telemetry.{ProbeTask}

pub record ProbeConfig : Type 0 where
  pub concurrency : ℤ
  pub timeout : ℤ
  pub interval : ℤ
  pub attempts : ℤ

-- Values that are not set get their defaults.
abbrev pub with_defaults : ProbeConfig → ProbeConfig
with_defaults cfg =
    let unset : ℤ → Bool = λ z. ltb_ℤ z (pos 1) in
    record {
      concurrency = (if unset cfg.concurrency then pos 4 else cfg.concurrency);
      timeout = (if unset cfg.timeout then pos 2_000_000_000 else cfg.timeout);
      interval = (if unset cfg.interval then pos 10_000_000_000 else cfg.interval);
      attempts = (if unset cfg.attempts then pos 5 else cfg.attempts);
    }

-- What a dial answers, with the time that it took: a timeout, another error, a connection.
pub data Dial : Type 0 where
  timed_out : ℤ → Dial
  refused : ℤ → Dial
  connected : ℤ → Dial

pub record ProbeResult (R : Type 0) : Type 0 where
  pub target : ProbeTask
  pub attempts : ℤ
  pub failures : ℕ
  pub loss_rate : R
  pub avg_rtt : ℤ

pub record Counts : Type 0 where
  pub failures : ℕ
  pub successes : ℕ
  pub total_rtt : ℤ

-- Only a timeout counts as a loss.
abbrev pub count_dial : Counts → Dial → Counts
count_dial c (timed_out rtt) = record c { failures = suc c.failures }
count_dial c (refused rtt) = record c {
  successes = suc c.successes;
  total_rtt = add64 c.total_rtt rtt;
}
count_dial c (connected rtt) = record c {
  successes = suc c.successes;
  total_rtt = add64 c.total_rtt rtt;
}

-- The loop over the attempts that are left, `a` of which is the next.
unfoldable pub attempt_loop : (ℕ → Dial) → ℕ → ℕ → Counts → Counts
attempt_loop dial a zero c = c
attempt_loop dial a (suc left) c = attempt_loop dial (suc a) left (count_dial c (dial a))

-- A number of attempts that is not positive makes no attempt.
abbrev pub attempts_of : ℤ → ℕ
attempts_of (pos n) = n
attempts_of _ = 0

module _ {R : Type 0} (ops : FloatOps R) where
  unfoldable pub probe : ProbeConfig → (ProbeTask → ℕ → Dial) → ProbeTask → ProbeResult R
  unfolding attempt_loop
  probe cfg dial target =
      let c =
        attempt_loop (dial target) 0 (attempts_of cfg.attempts)
          (record { failures = 0; successes = 0; total_rtt = pos 0 }) in
      record {
        target = target;
        attempts = cfg.attempts;
        failures = c.failures;
        loss_rate = ops.div (ops.of_int (pos c.failures)) (ops.of_int cfg.attempts);
        avg_rtt = (if ltb 0 c.successes then div64 c.total_rtt (pos c.successes) else pos 0);
      }

  -- Targets that wait, targets that workers have, and results so far.
  pub record Round : Type 0 where
    pub jobs : List ProbeTask
    pub busy : List ProbeTask
    pub round_results : List (ProbeResult R)

  abbrev pub start_round : List ProbeTask → Round
  start_round targets = record { jobs = targets; busy = []; round_results = [] }

  -- An idle worker takes the next target; any worker finishes.
  pub data RoundStep (cfg : ProbeConfig) (dial : ProbeTask → ℕ → Dial)
      : Round → Round → Type 0 where
    takes :
        (t : ProbeTask) (ts ws : List ProbeTask) (rs : List (ProbeResult R))
        → length ws < attempts_of cfg.concurrency
        → RoundStep cfg dial
            (record { jobs = t ∷ ts; busy = ws; round_results = rs })
            (record { jobs = ts; busy = t ∷ ws; round_results = rs })
    finishes :
        (t : ProbeTask) (ts us vs : List ProbeTask) (rs : List (ProbeResult R))
        → RoundStep cfg dial
            (record { jobs = ts; busy = us ++ t ∷ vs; round_results = rs })
            (record { jobs = ts; busy = us ++ vs; round_results = rs ++ probe cfg dial t ∷ [] })

  pub data RoundRun (cfg : ProbeConfig) (dial : ProbeTask → ℕ → Dial) (s : Round)
      : Round → Type 0 where
    here : RoundRun cfg dial s s
    then_step :
        {t u : Round} → RoundRun cfg dial s t → RoundStep cfg dial t u → RoundRun cfg dial s u

module _ {R : Type 0} where
  unfoldable pub update_latest_results :
      List (ProbeResult R) → Dict (ProbeResult R) → Dict (ProbeResult R)
  update_latest_results [] m = m
  update_latest_results (r ∷ rs) m = update_latest_results rs (insert r.target.ip r m)
