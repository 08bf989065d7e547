-- ===== src/Storage/Receives.antt =====
-- The handler that receives the reports (control-plane/pkg/api/vm-receive.go), with its map of active
-- machines. What decoding the request, the clock and the generator of ids answer are arguments.
use sky_flow.Base.{List, [], ◌∷◌, ◌++◌, Option, none, some, ◌==◌, if◌then◌else◌}
use sky_flow.Base.Int.{ℤ, pos, ltb_ℤ}
use sky_flow.Base.Text.{Text, ◌≟◌}
use sky_flow.Base.Dict.{Dict, insert}
use sky_flow.Storage.{VmReport, Entry, Writing, PutResult, saved, put}

-- The request: not the outer structure, its data not encoded again, no report in it, or a report.
pub data Body (R : Type 0) : Type 0 where
  bad_request : Body R
  bad_data : Body R
  bad_report : Body R
  decoded : VmReport R → Body R

pub data Fault : Type 0 where
  empty_vm_id negative_physical_core negative_logical_core empty_public_ip no_memory : Fault

pub data Reply (R : Type 0) : Type 0 where
  bad_format : Reply R
  invalid : List Fault → Reply R
  save_failed : PutResult → Reply R
  received : VmReport R → Reply R

pub record Receiver (R : Type 0) : Type 0 where
  pub storage : List (Entry R)
  pub activity_vm : Dict (VmReport R)

-- A request with what the outside answers to it.
pub record Post (R : Type 0) : Type 0 where
  pub writing : Writing
  pub now : ℤ
  pub uuid : Text
  pub body : Body R

abbrev pub or_now : ℤ → Option ℤ → ℤ
or_now now none = now
or_now now (some t) = t

module _ {R : Type 0} where
  -- The faults in the order of the checks.
  unfoldable pub validate_errors : VmReport R → List Fault
  validate_errors r =
      (if r.vm_id ≟ [] then empty_vm_id ∷ [] else [])
      ++ ((if ltb_ℤ r.physical_core (pos 0) then negative_physical_core ∷ [] else [])
          ++ ((if ltb_ℤ r.logical_core (pos 0) then negative_logical_core ∷ [] else [])
              ++ ((if r.public_ip ≟ [] then empty_public_ip ∷ [] else [])
                  ++ (if r.memory_total == 0 then no_memory ∷ [] else []))))

  -- Missing fields get their values.
  unfoldable pub filled : ℤ → Text → VmReport R → VmReport R
  filled now uuid r = record r {
    collect_time = some (or_now now r.collect_time);
    report_id = (if r.report_id ≟ [] then uuid else r.report_id);
    port_count = (if ltb_ℤ r.port_count (pos 0) then pos 0 else r.port_count);
  }

  -- `saved` notes the machine as active, any other result is an error.
  unfoldable pub after_save :
      VmReport R → Dict (VmReport R) → List (Entry R) × PutResult → Receiver R × Reply R
  after_save r active (dir, saved id) =
      (record { storage = dir; activity_vm = insert r.vm_id r active }, received r)
  after_save r active (dir, failure) =
      (record { storage = dir; activity_vm = active }, save_failed failure)

  unfoldable pub post_vm_receive : Writing → ℤ → Text → Body R → Receiver R → Receiver R × Reply R
  unfolding validate_errors filled after_save
  post_vm_receive w now uuid (decoded r) s = elim (validate_errors r) [
    | [] ↦
        let full = filled now uuid r in after_save full s.activity_vm (put w (some full) s.storage)
    | e ∷ es ↦ (s, invalid (e ∷ es))
  ]
  post_vm_receive w now uuid other s = (s, bad_format)

  -- Requests, the last one first.
  unfoldable pub post_all : List (Post R) → Receiver R → Receiver R
  post_all [] s = s
  post_all (p ∷ ps) s = (post_vm_receive p.writing p.now p.uuid p.body (post_all ps s)).0

  -- A report that passes the checks is saved as it is filled.
  unfoldable pub accept_valid : Writing × VmReport R → List Fault → List (Writing × VmReport R)
  accept_valid call [] = call ∷ []
  accept_valid call (e ∷ es) = []

  unfoldable pub accept : Writing → ℤ → Text → Body R → List (Writing × VmReport R)
  unfolding accept_valid validate_errors filled
  accept w now uuid (decoded r) = accept_valid (w, filled now uuid r) (validate_errors r)
  accept w now uuid other = []

  unfoldable pub accepted : List (Post R) → List (Writing × VmReport R)
  unfolding accept
  accepted [] = []
  accepted (p ∷ ps) = accept p.writing p.now p.uuid p.body ++ accepted ps
