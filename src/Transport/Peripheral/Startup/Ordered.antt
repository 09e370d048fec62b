-- ===== src/Transport/Peripheral/Startup/Ordered.antt =====
-- A start that succeeds saw the three callbacks, one after the other.
use mlink.Prelude.{◌≡◌, refl, ap, ◌∙◌, arith, String, List, [], ◌∷◌, ◌++◌, Option, none, some}
use mlink.Protocol.Errors.{Result, ok, err}
use mlink.Transport.Peripheral.Startup.{
  powered_on, done, PeripheralEvent, state_changed, service_added, advertising_started, Waited,
  time_over, channel_closed, event, powered_verdict, added_verdict, started_verdict, Answer,
  or_wait, wait_until, wait_for_powered_on, wait_for_service_added, wait_for_advertising_started,
  and_then, start,
}

abbrev pub Accepts : (PeripheralEvent → Option (Result (Unit {0}))) → PeripheralEvent → Type 0
Accepts verdict e = verdict e ≡ some (ok tt)

module _ (verdict : PeripheralEvent → Option (Result (Unit {0}))) (late closed : String) where
  abbrev Found : List Waited → List Waited → Type 0
  Found events rest =
      (before : List Waited) × (e : PeripheralEvent) × (events ≡ before ++ (event e ∷ rest))
      × Accepts verdict e

  later : (w : Waited) (events rest : List Waited) → Found events rest → Found (w ∷ events) rest
  later w events rest (before, e, q, k) = (w ∷ before, e, ap (λ t. w ∷ t) q, k)

  judged :
      (e : PeripheralEvent) (events rest : List Waited) (o : Option (Result (Unit {0})))
      → verdict e ≡ o
      → or_wait o events (wait_until verdict late closed events) ≡ (some (ok tt), rest)
      → (wait_until verdict late closed events ≡ (some (ok tt), rest) → Found events rest)
      → Found (event e ∷ events) rest
  judged e events rest none v h next = later (event e) events rest (next h)
  judged e events rest (some r) v h next =
      let accepted : some r ≡ some (ok tt) = ap (λ p. p.0) h in
      ([], e, ap (λ p. event e ∷ p.1) h, v ∙ accepted)

  waited :
      (events rest : List Waited)
      → wait_until verdict late closed events ≡ (some (ok tt), rest)
      → Found events rest
  unfolding wait_until
  waited [] rest h = absurd (ground (arith, h))
  waited (time_over ∷ events) rest h = absurd (ground (arith, h))
  waited (channel_closed ∷ events) rest h = absurd (ground (arith, h))
  waited (event e ∷ events) rest h = judged e events rest (verdict e) refl h (waited events rest)

powered : (e : PeripheralEvent) → Accepts powered_verdict e → e ≡ state_changed powered_on
powered e k = ground (arith, k)

added : (e : PeripheralEvent) → Accepts added_verdict e → e ≡ service_added done
added e k = ground (arith, k)

started : (e : PeripheralEvent) → Accepts started_verdict e → e ≡ advertising_started done
started e k = ground (arith, k)

through :
    (a : Answer) (next : List Waited → Answer) (rest : List Waited)
    → and_then a next ≡ (some (ok tt), rest)
    → (between : List Waited) × (a ≡ (some (ok tt), between))
      × (next between ≡ (some (ok tt), rest))
through (none, w) next rest h = absurd (ground (arith, h))
through (some (err x), w) next rest h = absurd (ground (arith, h))
through (some (ok x), w) next rest h = (w, refl, h)

-- The peripheral starts only after the manager was powered on, then the service was added, then the
-- advertisement was started: the three callbacks came in this order, whatever else came between.
pub start_in_order :
    (events rest : List Waited)
    → start events ≡ (some (ok tt), rest)
    → (w1 w2 w3 : List Waited) × (events
        ≡ w1
          ++ (event (state_changed powered_on)
              ∷ (w2
                  ++ (event (service_added done)
                      ∷ (w3 ++ (event (advertising_started done) ∷ rest))))))
unfolding start wait_for_powered_on wait_for_service_added wait_for_advertising_started
start_in_order events rest h =
    let (r2, h12, h3) =
      through (and_then (wait_for_powered_on events) wait_for_service_added)
        wait_for_advertising_started rest h in
    let (r1, h1, h2) = through (wait_for_powered_on events) wait_for_service_added r2 h12 in
    let (w1, e1, q1, k1) = waited powered_verdict _ _ events r1 h1 in
    let (w2, e2, q2, k2) = waited added_verdict _ _ r1 r2 h2 in
    let (w3, e3, q3, k3) = waited started_verdict _ _ r2 rest h3 in
    (
      w1,
      w2,
      w3,
      q1
          ∙ ap (λ e. w1 ++ (event e ∷ r1)) (powered e1 k1)
          ∙ ap (λ t. w1 ++ (event (state_changed powered_on) ∷ t))
              (q2
                ∙ ap (λ e. w2 ++ (event e ∷ r2)) (added e2 k2)
                ∙ ap (λ t. w2 ++ (event (service_added done) ∷ t))
                    (q3 ∙ ap (λ e. w3 ++ (event e ∷ rest)) (started e3 k3))),
    )
