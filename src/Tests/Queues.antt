-- ===== src/Tests/Queues.antt =====
-- util.c: a queue of file indices.
use rsync_wrapper.Prelude.{◌≡◌, refl, List, [], ◌∷◌, none, some}
use rsync_wrapper.Prelude.Int.{pos, negsuc}
use rsync_wrapper.NdxQueue.{NdxList, Memory}
use rsync_wrapper.NdxQueue.Fifo.{
  QueueCall, push, pop, Queued, queue_calls, on_list, queue_calls_lem,
}

abbrev empty_queue : NdxList
empty_queue = record { head = none; tail = none }

abbrev some_queue_calls : List QueueCall
some_queue_calls =
    push (pos 5) ∷ push (pos 3) ∷ pop ∷ push (pos 4) ∷ pop ∷ pop ∷ pop ∷ push (pos 8) ∷ []

queue_run : (on_list some_queue_calls []).0 ≡ pos 5 ∷ pos 3 ∷ pos 4 ∷ negsuc 0 ∷ []
unfolding on_list
queue_run = refl

queue_calls_lem_example :
    (q : NdxList) × (m : Memory) × (queue_calls some_queue_calls empty_queue []
      ≡ some ((on_list some_queue_calls []).0, (q, m)))
    × Queued q m (on_list some_queue_calls []).1
queue_calls_lem_example =
    queue_calls_lem some_queue_calls empty_queue [] [] (unfold Queued in (refl, refl))
