-- ===== src/Queue/Tests.antt =====
-- Runs of kernel/yanix/ds/queue.c on a queue of three words.
use yanix.Common.{[], ◌∷◌, refl, arith, Returns}
use yanix.Queue.{Queue, queue_push, queue_pop}
use yanix.Queue.Fifo.{IsValid, Implements, push_spec, pop_spec, push-Implements, pop-Implements}

abbrev waiting : Queue
waiting = record { buffer = 5 ∷ 7 ∷ 0 ∷ []; size = 2; capacity = 3; lock = 0 }

waiting-IsValid : IsValid waiting
waiting-IsValid = record { block = refl; bounded = omega arith; unlocked = refl }

push-Implements_example :
    Returns (Implements waiting (push_spec 3 9 (5 ∷ 7 ∷ []))) (queue_push 9 waiting)
push-Implements_example = push-Implements 9 waiting-IsValid

pop-Implements_example : Returns (Implements waiting (pop_spec (5 ∷ 7 ∷ []))) (queue_pop waiting)
pop-Implements_example = pop-Implements waiting-IsValid
