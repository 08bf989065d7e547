-- ===== src/Probing/Tests.antt =====
-- A round with two targets, of which the second ends first.
use sky_flow.Base.{ℕ, zero, suc, ◌≡◌, ◌≢◌, refl, [], ◌∷◌, some, Member, arith}
use sky_flow.Base.Int.{pos}
use sky_flow.Base.Word.{add64, div64}
use sky_flow.Base.Text.{Text, codes, ≟→≢, ◌≟◌}
use sky_flow.Base.Dict.{lookup}
use sky_flow.Base.Floats.{hundredths}
use sky_flow.Telemetry.{ProbeTask}
use sky_flow.Probing.{
  ProbeConfig, with_defaults, Dial, timed_out, refused, connected, probe, attempt_loop, Round,
  start_round, RoundStep, takes, finishes, RoundRun, here, then_step, update_latest_results,
}
use sky_flow.Probing.Latest.{round-latest}

abbrev target : Text → ProbeTask
target ip = record { target_type = []; provider = []; ip = ip; port = 80; region = []; id = [] }

abbrev near : ProbeTask
near = target (codes "n")

abbrev far : ProbeTask
far = target (codes "f")

-- The first dial times out, the second meets no server.
abbrev answers : ProbeTask → ℕ → Dial
answers t zero = timed_out (pos 2000)
answers t (suc zero) = refused (pos 30)
answers t (suc (suc n)) = connected (pos 60)

abbrev unset : ProbeConfig
unset = record { concurrency = pos 0; timeout = pos 0; interval = pos 0; attempts = pos 0 }

abbrev ended : Round hundredths
ended = record {
  jobs = [];
  busy = [];
  round_results =
      probe hundredths (with_defaults unset) answers far
      ∷ probe hundredths (with_defaults unset) answers near
      ∷ [];
}

two_at_once :
    RoundRun hundredths
      (with_defaults unset)
      answers
      (start_round hundredths (near ∷ far ∷ []))
      ended
two_at_once =
    then_step
      (then_step
        (then_step (then_step here (takes near (far ∷ []) [] [] (omega arith)))
          (takes far [] (near ∷ []) [] (omega arith)))
        (finishes far [] [] (near ∷ []) []))
      (finishes near [] [] [] (probe hundredths (with_defaults unset) answers far ∷ []))

no_more :
    (s u : Round hundredths)
    → RoundStep hundredths (with_defaults unset) answers s u
    → s.jobs ≡ []
    → s.busy ≡ []
    → ⊥
no_more _ _ (takes t ts ws rs l) j b = cc j
no_more _ _ (finishes t ts [] vs rs) j b = cc b
no_more _ _ (finishes t ts (u ∷ us) vs rs) j b = cc b

round-latest_example :
    ((t : ProbeTask)
      → Member t (near ∷ far ∷ [])
      → lookup t.ip (update_latest_results ended.round_results [])
        ≡ some (probe hundredths (with_defaults unset) answers t))
    × ((k : Text)
        → ((t : ProbeTask) → Member t (near ∷ far ∷ []) → t.ip ≢ k)
        → lookup k (update_latest_results ended.round_results []) ≡ lookup k [])
unfolding ◌≟◌
round-latest_example =
    round-latest hundredths unset answers (near ∷ far ∷ []) ended []
      ((≟→≢ (codes "f") (codes "n") refl, tt), (tt, tt)) two_at_once
      (λ u step. no_more ended u step refl refl)

-- Five attempts, of which one is lost; the four others take 210.
one_lost :
    probe hundredths (with_defaults unset) answers near
    ≡ record { target = near; attempts = pos 5; failures = 1; loss_rate = pos 1; avg_rtt = pos 52 }
unfolding probe attempt_loop add64 div64
one_lost = refl
