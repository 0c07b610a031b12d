-- ===== src/Event/Subscription.antt =====
-- internal/event/subscription.go: one subscription. `events` is the content of its channel,
-- `registered` says that it is a key of the log's `subscriptions`, and `done` that its two
-- channels are closed. `taken` lists what its reader has received so far; the program keeps no
-- such list, and nothing reads it here but statements.
use dicer.Prelude.{
  ℕ, Bool, true, false, ◌&&◌, Option, none, some, List, [], ◌∷◌, ◌++◌, length, ltb, if◌then◌else◌,
}
use dicer.Event.{Event, Filter, matches}

pub data EndReason : Type 0 where
  fell_behind : EndReason

pub record Subscription : Type 0 where
  pub filter : Filter
  pub events : List Event
  pub registered : Bool
  pub done : Bool
  pub err : Option EndReason
  pub taken : List Event

abbrev pub subscription_buffer : ℕ
subscription_buffer = 256

unfoldable pub new_subscription : Filter → Subscription
new_subscription f = record {
  filter = f;
  events = [];
  registered = true;
  done = false;
  err = none;
  taken = [];
}

-- `Subscription.end`.
unfoldable pub end_subscription : Option EndReason → Subscription → Subscription
end_subscription reason s =
    if s.registered then record s { registered = false; err = reason; done = true } else s

-- `Subscription.send`: a full channel ends the subscription.
unfoldable pub send : Event → Subscription → Subscription
unfolding end_subscription
send e s =
    if ltb (length s.events) subscription_buffer
    then record s { events = s.events ++ e ∷ [] }
    else end_subscription (some fell_behind) s

-- What the loop of `Record` does with one of the subscriptions.
unfoldable pub offer : Event → Subscription → Subscription
unfolding send
offer e s = if s.registered && matches s.filter e then send e s else s

-- The reader takes the next event out of the channel, if one waits.
unfoldable pub receive_from : List Event → Subscription → Subscription
receive_from [] s = s
receive_from (e ∷ rest) s = record s { events = rest; taken = s.taken ++ e ∷ [] }

unfoldable pub receive : Subscription → Subscription
receive s = receive_from s.events s
