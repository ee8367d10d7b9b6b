-- ===== src/Siem/Queue.antt =====
-- The class EventQueue of sdk/security/boundary-siem.ts. An operation changes the queue before it
-- waits for anything, so that operations do not interleave in it; the batch that it gives to
-- `onFlush` is a result.
use ilr_module.Prelude.{ℕ, List, [], ◌∷◌, ◌++◌, Bool, true, false, leb, if◌then◌else◌, length}
use ilr_module.Siem.Events.{SecurityEvent}

-- `queue`, and whether `flushTimer` is set.
pub record EventQueue : Type 0 where
  pub queue : List SecurityEvent
  pub flush_timer : Bool

abbrev pub empty_queue : EventQueue
empty_queue = record { queue = []; flush_timer = false }

-- The queue after an operation, and the batches that it flushed: one or none.
pub record Flushed : Type 0 where
  pub after : EventQueue
  pub flushed : List (List SecurityEvent)

-- `if (this.queue.length === 0) return; …`
unfoldable pub take_batch : List SecurityEvent → List (List SecurityEvent)
take_batch [] = []
take_batch (e ∷ es) = (e ∷ es) ∷ []

unfoldable pub flush : EventQueue → Flushed
unfolding take_batch
flush q = record { after = empty_queue; flushed = take_batch q.queue }

unfoldable pub add : ℕ → SecurityEvent → EventQueue → Flushed
unfolding flush
add batch_size event q =
    let pushed : EventQueue = record q { queue = q.queue ++ event ∷ [] } in
    if leb batch_size (length pushed.queue)
    then flush pushed
    else record { after = record pushed { flush_timer = true }; flushed = [] }

-- The timer calls flush; it fires only while it is set.
unfoldable pub timer_fires : EventQueue → Flushed
unfolding flush
timer_fires q = if q.flush_timer then flush q else record { after = q; flushed = [] }

unfoldable pub size : EventQueue → ℕ
size q = length q.queue

unfoldable pub shutdown : EventQueue → Flushed
unfolding flush
shutdown q = flush q
