-- ===== src/Live/Arrivals.antt =====
-- The events that the feed passes on in a live run, and those that the pipeline is called for.
use lob_market_maker.Prelude.{◌≡◌, refl, ap, List, [], ◌∷◌, ◌++◌}
use lob_market_maker.Types.{Timestamp}
use lob_market_maker.Events.{MarketEvent}
use lob_market_maker.Pipeline.{ClockReads}
use lob_market_maker.Pipeline.Run.{Call, event, clock}
use lob_market_maker.Live.{Happening, arrives, turn_of_loop}

-- Some of the values of a list, in their order.
pub data Thinned {A : Type 0} : List A → List A → Type 0 where
  none_left : Thinned [] []
  kept : {xs ys : List A} (x : A) → Thinned xs ys → Thinned (x ∷ xs) (x ∷ ys)
  left_out : {xs ys : List A} (x : A) → Thinned xs ys → Thinned xs (x ∷ ys)

pub Thinned-kept_last :
    {A : Type 0} {xs ys : List A} (x : A)
    → Thinned xs ys
    → Thinned (xs ++ (x ∷ [])) (ys ++ (x ∷ []))
Thinned-kept_last x none_left = kept x none_left
Thinned-kept_last x (kept y t) = kept y (Thinned-kept_last x t)
Thinned-kept_last x (left_out y t) = left_out y (Thinned-kept_last x t)

pub Thinned-without_last :
    {A : Type 0} {xs ys : List A} (x : A) → Thinned xs ys → Thinned xs (ys ++ (x ∷ []))
Thinned-without_last x none_left = left_out x none_left
Thinned-without_last x (kept y t) = kept y (Thinned-without_last x t)
Thinned-without_last x (left_out y t) = left_out y (Thinned-without_last x t)

-- The events of some calls, and of what happens.
unfoldable pub events_of_calls : List Call → List MarketEvent
events_of_calls [] = []
events_of_calls (event c ev ∷ xs) = ev ∷ events_of_calls xs
events_of_calls (clock now ∷ xs) = events_of_calls xs

unfoldable pub arrivals : List Happening → List MarketEvent
arrivals [] = []
arrivals (arrives ev ∷ hs) = ev ∷ arrivals hs
arrivals (turn_of_loop now ∷ hs) = arrivals hs

pub events_of_calls-event :
    (xs : List Call) (c : ClockReads) (ev : MarketEvent) (ws : List MarketEvent)
    → events_of_calls (xs ++ (event c ev ∷ [])) ++ ws ≡ events_of_calls xs ++ (ev ∷ ws)
unfolding events_of_calls
events_of_calls-event [] c ev ws = refl
events_of_calls-event (event c' e ∷ xs) c ev ws =
    ap (λ zs. e ∷ zs) (events_of_calls-event xs c ev ws)
events_of_calls-event (clock now ∷ xs) c ev ws = events_of_calls-event xs c ev ws

pub events_of_calls-clock :
    (xs : List Call) (t : Timestamp) → events_of_calls (xs ++ (clock t ∷ [])) ≡ events_of_calls xs
unfolding events_of_calls
events_of_calls-clock [] t = refl
events_of_calls-clock (event c e ∷ xs) t = ap (λ zs. e ∷ zs) (events_of_calls-clock xs t)
events_of_calls-clock (clock now ∷ xs) t = events_of_calls-clock xs t
