-- ===== src/Tests/Reviewing.antt =====
-- The review queue (db_collector_os/review/queue.py).
use db_collector_os.Prelude.{none, some, List, [], ◌∷◌, arith}
use db_collector_os.Models.Enums.{captcha}
use db_collector_os.Review.{ReviewQueue, add, resolve, dismiss}
use db_collector_os.Review.Closed.{
  ReviewOp, do_add, do_dismiss, run_ops, IsClosed, IsClosed-forever,
}

abbrev empty_queue : ReviewQueue
empty_queue = record { items = []; next_id = 1 }

abbrev asked : ReviewQueue
unfolding add
asked = (add 1000000 "j" captcha none none (some "c1") empty_queue).0

abbrev later_calls : List ReviewOp
later_calls = do_add 3000000 "j" captcha none none (some "c1") ∷ do_dismiss 4000000 2 ∷ []

IsClosed-forever_example :
    IsClosed 1 (run_ops later_calls (resolve 2000000 1 asked))
    × IsClosed 1 (run_ops later_calls (dismiss 2000000 1 asked))
unfolding asked
IsClosed-forever_example = IsClosed-forever 2000000 1 later_calls asked (ground arith)
