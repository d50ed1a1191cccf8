-- ===== src/Tests/Watching.antt =====
-- A watcher of a namespace.
use elara.Prelude.{
  ◌≤◌, ◌≡◌, refl, true, some, List, [], ◌∷◌, ◌++◌, bytes_eq, has_prefix, arith, length,
}
use elara.Prelude.Outcome.{ok}
use elara.Watch.{
  WatchEvent, Publisher, Subscription, lookup, new_publisher, subscribe, cleanup, notify_call,
  created, shutdown, matches, event_of,
}
use elara.Watch.WellFormed.{IsWellFormed}
use elara.Watch.Reach.{Reach, start, next, by_subscribe, Reach-IsWellFormed, never_panics}
use elara.Watch.Delivery.{
  Act, publishes, subscribes, takes, run, matching, accepted, keeps_up, delivery, delivery_complete,
}
use elara.Tests.Data.{prod, config}

unfoldable one_watcher : Publisher
unfolding subscribe
one_watcher = (subscribe [] prod new_publisher).1

one_watcher-Reach : Reach one_watcher
unfolding one_watcher
one_watcher-Reach = next start (by_subscribe [] prod new_publisher)

abbrev of_prod : Subscription
of_prod = record { path_prefix = []; namespace = prod }

subscribed : lookup 1 one_watcher.subscriptions ≡ some of_prod
unfolding one_watcher lookup
subscribed = refl

abbrev acts : List Act
acts = publishes 7 (created config) ∷ subscribes [] [] ∷ takes ∷ []

Reach-IsWellFormed_example : IsWellFormed one_watcher
Reach-IsWellFormed_example = Reach-IsWellFormed one_watcher-Reach

known : 1 ≤ one_watcher.next_id
unfolding one_watcher
known = omega arith

never_panics_example :
    ((q : Publisher) × (notify_call 7 (created config) one_watcher ≡ ok q))
    × ((q : Publisher) × (shutdown one_watcher ≡ ok q))
    × ((q : Publisher) × (cleanup 1 one_watcher ≡ ok q))
never_panics_example = never_panics 7 (created config) 1 one_watcher-Reach known

delivery_example :
    (q : Publisher) × (l : List WatchEvent) × (run 1 acts one_watcher ≡ ok (q, l))
    × (l ++ (q.channels 1).queue
        ≡ (one_watcher.channels 1).queue
          ++ accepted of_prod acts (length (one_watcher.channels 1).queue))
delivery_example = delivery 1 of_prod acts one_watcher one_watcher-Reach subscribed

in_time : keeps_up of_prod acts (length (one_watcher.channels 1).queue) ≡ true
unfolding one_watcher keeps_up matches event_of bytes_eq has_prefix
in_time = refl

delivery_complete_example :
    (q : Publisher) × (l : List WatchEvent) × (run 1 acts one_watcher ≡ ok (q, l))
    × (l ++ (q.channels 1).queue ≡ (one_watcher.channels 1).queue ++ matching of_prod acts)
delivery_complete_example =
    delivery_complete 1 of_prod acts one_watcher one_watcher-Reach subscribed in_time
