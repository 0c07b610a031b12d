-- ===== src/Event/Delivered.antt =====
-- What a subscription's reader gets from one offer, receipt or end.
use mathlib.Core.List.{append-nil, append_assoc}
use dicer.Prelude.{
  ◌≡◌, refl, sym, ap, ◌∙◌, ◌⊎◌, inl, inr, Bool, true, false, some, Option, List, [], ◌∷◌, ◌++◌,
  arith, filter, Bool-cases,
}
use dicer.Event.{Event, matches}
use dicer.Event.Subscription.{
  fell_behind, receive_from, Subscription, EndReason, end_subscription, offer, receive,
}

-- What the reader has received, then what waits for it.
abbrev pub received : Subscription → List Event
received b = b.taken ++ b.events

-- From `b` to `b'` while the events of `picked` are recorded that its filter picks: nothing is
-- missing or repeated before the last event received; as long as it is registered nothing is left
-- out; and once it is not, it receives no more.
pub record Delivered (b b' : Subscription) (picked : List Event) : Type 0 where
  pub left_out : List Event
  pub in_order : received b' ++ left_out ≡ received b ++ picked
  pub complete : b'.registered ≡ true → left_out ≡ []
  pub over : b.registered ≡ false → (b'.registered ≡ false) × (received b' ≡ received b)
  pub same_filter : b'.filter ≡ b.filter

pub unchanged : (b : Subscription) → Delivered b b []
unchanged b = record {
  left_out = [];
  in_order = refl;
  complete = λ _. refl;
  over = λ h. (h, refl);
  same_filter = refl;
}

absurd_live {ℓ} : {A : Type ℓ} {b : Bool} → b ≡ true → b ≡ false → A
absurd_live h k = cc

pub Delivered-trans :
    (b c d : Subscription) (xs ys : List Event)
    → Delivered b c xs
    → Delivered c d ys
    → Delivered b d (xs ++ ys)
Delivered-trans b c d xs ys p q = elim (Bool-cases c.registered) [
  | inl live ↦ record {
    left_out = q.left_out;
    in_order =
        q.in_order
        ∙ ap (λ zs. zs ++ ys)
            (sym (append-nil (received c))
              ∙ ap (◌++◌ (received c)) (sym (p.complete live))
              ∙ p.in_order)
        ∙ append_assoc (received b) xs ys;
    complete = q.complete;
    over = λ h. absurd_live live (p.over h).0;
    same_filter = q.same_filter ∙ p.same_filter;
  }
  | inr ended ↦ record {
    left_out = p.left_out ++ ys;
    in_order =
        sym (append_assoc (received d) p.left_out ys)
        ∙ ap (λ zs. zs ++ ys) (ap (λ zs. zs ++ p.left_out) (q.over ended).1 ∙ p.in_order)
        ∙ append_assoc (received b) xs ys;
    complete = λ h. absurd_live h (q.over ended).0;
    over = λ h. ((q.over ended).0, (q.over ended).1 ∙ (p.over h).1);
    same_filter = q.same_filter ∙ p.same_filter;
  }
]

end-cases :
    (r : Option EndReason) (b : Subscription)
    → (end_subscription r b ≡ b)
      ⊎ (end_subscription r b ≡ record b { registered = false; err = r; done = true })
unfolding end_subscription
end-cases r b = ground arith

pub end_subscription-Delivered :
    (r : Option EndReason) (b : Subscription) → Delivered b (end_subscription r b) []
end_subscription-Delivered r b = elim (end-cases r b) [
  | inl same ↦ rw same (unchanged b)
  | inr ended ↦ rw ended (record {
    left_out = [];
    in_order = refl;
    complete = λ _. refl;
    over = λ _. (refl, refl);
    same_filter = refl;
  })
]

receive_from-Delivered :
    (es : List Event) (b : Subscription) → b.events ≡ es → Delivered b (receive_from es b) []
unfolding receive_from
receive_from-Delivered [] b shape = unchanged b
receive_from-Delivered (e ∷ rest) b shape =
    let moved : (b.taken ++ e ∷ []) ++ rest ≡ b.taken ++ b.events =
      append_assoc b.taken (e ∷ []) rest ∙ ap (◌++◌ b.taken) (sym shape) in
    record {
      left_out = [];
      in_order = ap (λ zs. zs ++ []) moved;
      complete = λ _. refl;
      over = λ h. (h, moved);
      same_filter = refl;
    }

pub receive-Delivered : (b : Subscription) → Delivered b (receive b) []
unfolding receive
receive-Delivered b = receive_from-Delivered b.events b refl

-- The four ways of an event and a subscription: it is over; the filter does not pick the event;
-- the channel takes it; or the subscription ends.
offer-cases :
    (e : Event) (b : Subscription)
    → ((b.registered ≡ false) × (offer e b ≡ b))
      ⊎ ((matches b.filter e ≡ false) × (offer e b ≡ b))
      ⊎ ((b.registered ≡ true)
          × (matches b.filter e ≡ true)
          × (offer e b ≡ record b { events = b.events ++ e ∷ [] }))
      ⊎ ((b.registered ≡ true)
          × (matches b.filter e ≡ true)
          × (offer e b ≡ record b { registered = false; err = some fell_behind; done = true }))
unfolding offer
offer-cases e b = ground arith

pub offer-Delivered :
    (e : Event) (b : Subscription) → Delivered b (offer e b) (filter (matches b.filter) (e ∷ []))
offer-Delivered e b = elim (offer-cases e b) [
  | inl (ended, same) ↦ rw same (record {
    left_out = filter (matches b.filter) (e ∷ []);
    in_order = refl;
    complete = λ h. absurd_live h ended;
    over = λ h. (h, refl);
    same_filter = refl;
  })
  | inr (inl (passed, same)) ↦ rw (same, passed) (unchanged b)
  | inr (inr (inl (live, picked, sent))) ↦
      rw (sent, picked)
        (record {
          left_out = [];
          in_order = append-nil _ ∙ sym (append_assoc b.taken b.events (e ∷ []));
          complete = λ _. refl;
          over = λ h. absurd_live live h;
          same_filter = refl;
        })
  | inr (inr (inr (live, picked, cut))) ↦
      rw (cut, picked)
        (record {
          left_out = e ∷ [];
          in_order = refl;
          complete = λ h. absurd_live h refl;
          over = λ h. absurd_live live h;
          same_filter = refl;
        })
]
