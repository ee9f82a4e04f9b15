-- ===== src/Pcb/Statuses.antt =====
-- A process collects the statuses of its children in the order in which they signalled them.
use custom_os_kernel.Base.{
  ℕ, ◌≡◌, ap, sym, ◌∙◌, true, Option, none, some, List, [], ◌∷◌, ◌++◌, append_assoc,
}
use custom_os_kernel.Base.Int.{ℤ, pos, neg}
use custom_os_kernel.Pcb.{Pcb, PcbMetadata, pcb_signal_status, pcb_wait_on_status}

-- The processes that signals of children and waits reach, with the statuses that were signalled and
-- those that were collected, oldest first.
pub data Exchanged (start : Pcb) : Pcb → (signalled collected : List PcbMetadata) → Type 0 where
  begins : start.status_queue ≡ [] → Exchanged start start [] []
  signals :
      {p p' : Pcb} {sent got : List PcbMetadata} {woken : Option ℕ}
      → Exchanged start p sent got
      → (status original_tid : ℤ)
      → pcb_signal_status true true (some p) status original_tid ≡ (pos 0, woken, some p')
      → Exchanged start p'
          (sent ++ (record { status = status; original_tid = original_tid } ∷ []))
          got
  collects :
      {p p' : Pcb} {sent got : List PcbMetadata} {m : PcbMetadata}
      → Exchanged start p sent got
      → pcb_wait_on_status p ≡ (pos 0, some m, p')
      → Exchanged start p' sent (got ++ (m ∷ []))

abbrev queue_in : List PcbMetadata → Option Pcb → List PcbMetadata
queue_in d none = d
queue_in d (some p) = p.status_queue

signal-queue :
    (p : Pcb) (status original_tid : ℤ) {woken : Option ℕ} {p' : Pcb}
    → pcb_signal_status true true (some p) status original_tid ≡ (pos 0, woken, some p')
    → p'.status_queue
      ≡ p.status_queue ++ (record { status = status; original_tid = original_tid } ∷ [])
unfolding pcb_signal_status
signal-queue p status original_tid e =
    sym (ap (λ (r : ℤ × Option ℕ × Option Pcb). queue_in [] r.2) e)

abbrev waited : Pcb → List PcbMetadata → ℤ × Option PcbMetadata × Pcb
waited p [] = (neg 2, none, p)
waited p (m ∷ ms) = (pos 0, some m, record p { status_queue = ms })

abbrev front_of : PcbMetadata → Option PcbMetadata → PcbMetadata
front_of d none = d
front_of d (some m) = m

collect-queue :
    (p : Pcb) (xs : List PcbMetadata) (m : PcbMetadata) {p' : Pcb}
    → waited p xs ≡ (pos 0, some m, p')
    → xs ≡ m ∷ p'.status_queue
collect-queue p [] m e = cc
collect-queue p (x ∷ xs) m e =
    ap (λ (r : ℤ × Option PcbMetadata × Pcb). front_of m r.1 ∷ r.2.status_queue) e

-- Whatever signals and waits came, from an empty queue on: the statuses that were signalled are those
-- that were collected, in the same order, and then those that are left in the queue.
pub Exchanged-queue :
    {start p : Pcb} {sent got : List PcbMetadata}
    → Exchanged start p sent got
    → sent ≡ got ++ p.status_queue
unfolding pcb_wait_on_status
Exchanged-queue (begins empty) = sym empty
Exchanged-queue (signals {p = p} {got = got} x status tid e) =
    let sent : List PcbMetadata = record { status = status; original_tid = tid } ∷ [] in
    ap (λ l. l ++ sent) (Exchanged-queue x)
    ∙ append_assoc got p.status_queue sent
    ∙ ap (λ l. got ++ l) (sym (signal-queue p status tid e))
Exchanged-queue (collects {p = p} {p' = p'} {got = got} {m = m} x e) =
    Exchanged-queue x
    ∙ ap (λ l. got ++ l) (collect-queue p p.status_queue m e)
    ∙ sym (append_assoc got (m ∷ []) p'.status_queue)
