-- ===== src/WorkerApp/Workloads.antt =====
-- The service and the worker agree on the workloads that can run.
use radahn.Common.{pos, ◌≡◌, ◌↔◌, true, some, ok, arith, ℕ}
use radahn.Domain.Workload.{WorkloadSpec, sleeping, make_workload, sleep}
use radahn.Service.Messages.{
  RpcWorkload, rpc_sleep, rpc_unspecified_kind, rpc_other_kind, RpcWorkloadKind, workload_info,
  copy_workload, copy_workload_of, copy_sleep,
}
use radahn.WorkerApp.Process.{execute_job, execute_kind}

copied_sleep :
    (n : ℕ) (w : WorkloadSpec)
    → copy_sleep n ≡ ok w
    → workload_info w ≡ record { kind = rpc_sleep; sleep_duration_ms = n }
unfolding copy_sleep workload_info sleep make_workload
copied_sleep n w h = ground arith

copied :
    (kind : RpcWorkloadKind) (n : ℕ) (w : WorkloadSpec)
    → copy_workload_of kind n ≡ ok w
    → workload_info w ≡ record { kind = kind; sleep_duration_ms = n }
unfolding copy_workload_of
copied rpc_sleep n w h = copied_sleep n w h
copied rpc_unspecified_kind n w h = ground arith
copied (rpc_other_kind k) n w h = ground arith

-- A workload that is read from a message is written back as the same message.
pub workload_info-copy_workload :
    (m : RpcWorkload) (w : WorkloadSpec) → copy_workload m ≡ ok w → workload_info w ≡ m
unfolding copy_workload
workload_info-copy_workload m w h = copied m.kind m.sleep_duration_ms w h

executes :
    (kind : RpcWorkloadKind) (n : ℕ)
    → (execute_kind kind n ≡ true) ↔ ((w : WorkloadSpec) × (copy_workload_of kind n ≡ ok w))
unfolding copy_workload_of copy_sleep sleep make_workload execute_kind
executes rpc_sleep n = (
  λ h. (record { kind = sleeping; sleep_duration = pos n }, ground arith),
  λ h. ground (arith, h.1),
)
executes rpc_unspecified_kind n = (λ h. ground arith, λ h. ground (arith, h.1))
executes (rpc_other_kind k) n = (λ h. ground arith, λ h. ground (arith, h.1))

-- The worker can run the workload of a message exactly if the service accepts it.
pub execute_job_iff :
    (m : RpcWorkload)
    → (execute_job (some m) ≡ true) ↔ ((w : WorkloadSpec) × (copy_workload m ≡ ok w))
unfolding execute_job copy_workload
execute_job_iff m = executes m.kind m.sleep_duration_ms
