-- ===== src/Outbox/Tests.antt =====
-- Runs of runtime/outbox.py.
use diploid_agent.Prelude.{◌≡◌, refl, String, true, false, All, none, some, List, [], ◌∷◌, ◌++◌}
use diploid_agent.Outbox.{
  Item, chat_result, turn_started, Outbox, pop_first, outbox_pop, enqueue_outbox, emit_turn_started,
  log_transient,
}
use diploid_agent.Outbox.Order.{
  Op, puts, starts, pops, run, entries, IsAsked, entered, of_chat, run_fifo,
}

abbrev reply : String → Item
reply text = chat_result (some text) false

abbrev empty : Outbox
empty = record { outbox_delivery = true; queue = []; event_log = none }

abbrev two_chats : List Op
two_chats =
    puts 1 "a" (reply "one")
    ∷ starts "b" none (some 1) none
    ∷ puts 2 "b" (reply "three")
    ∷ pops (some "b")
    ∷ pops (some "c")
    ∷ pops none
    ∷ []

handed_out :
    entries (run two_chats empty).1
    ≡ ("b", turn_started none (some 1) none) ∷ ("a", reply "one") ∷ []
unfolding run outbox_pop pop_first enqueue_outbox emit_turn_started log_transient
handed_out = refl

run_fifo_example :
    (of_chat "b" (entries (run two_chats empty).1) ++ of_chat "b" (run two_chats empty).0
      ≡ of_chat "b" [] ++ of_chat "b" (entered true two_chats))
    × All IsAsked (run two_chats empty).1
run_fifo_example = run_fifo two_chats empty "b"
