-- ===== src/Pcb/Examples.antt =====
-- The theorem of kern/scheduler/pcb.c where two children signal and one status is collected.
use custom_os_kernel.Base.{◌≡◌, refl, none, List, [], ◌∷◌, ◌++◌}
use custom_os_kernel.Base.Int.{ℤ, pos, neg}
use custom_os_kernel.Semaphore.{sem_signal}
use custom_os_kernel.Pcb.{Pcb, PcbMetadata, pcb_signal_status, pcb_wait_on_status}
use custom_os_kernel.Pcb.Statuses.{Exchanged, begins, signals, collects, Exchanged-queue}

abbrev parent : (count : ℤ) → List PcbMetadata → Pcb
parent count queue = record {
  pid = pos 3;
  ppid = pos 1;
  original_tid = pos 4;
  stack_top = 0;
  entry_point = 0;
  num_threads = 1;
  num_child_proc = 2;
  wait_sem = record { count = count; q = [] };
  status_queue = queue;
}

abbrev first : PcbMetadata
first = record { status = neg 2; original_tid = pos 8 }

abbrev second : PcbMetadata
second = record { status = pos 0; original_tid = pos 9 }

exchanged :
    Exchanged (parent (pos 0) []) (parent (pos 2) (second ∷ [])) (first ∷ second ∷ []) (first ∷ [])
unfolding pcb_signal_status pcb_wait_on_status sem_signal
exchanged =
    collects {p = parent (pos 2) (first ∷ second ∷ [])}
      (signals {p = parent (pos 1) (first ∷ [])} {woken = none}
        (signals {p = parent (pos 0) []} {woken = none} (begins refl) (neg 2) (pos 8) refl) (pos 0)
        (pos 9) refl)
      refl

Exchanged-queue_example : first ∷ second ∷ [] ≡ (first ∷ []) ++ (second ∷ [])
Exchanged-queue_example = Exchanged-queue exchanged
