-- ===== src/Admin/Flows/Lifecycle.antt =====
-- The life of a flow among others: what a query of it answers, and when its listener is closed.
use mirasim2api.Base.{
  ℕ, ◌≤◌, ◌≡◌, refl, ap, ◌∙◌, length, ◌+◌, Bool, true, false, none, some, List, [], ◌∷◌, inl, inr,
  Str, arith, ltb, ◌==◌, ==_iff, lookup, lookup-insert, Option-cases, Bool-cases, All, all_b, not,
  text_key,
}
use mirasim2api.Admin.Flows.{FlowResult, OauthFlow, Flows, close_flow, put, finish, sweep, get_flow}

-- What the handlers and the sweeper do to the flows, one after the other.
pub data Event : Type 0 where
  begun : OauthFlow → Event
  ended : Str → FlowResult → Event
  swept : (now : ℕ) → Event

unfoldable pub after_event : Event → Flows → Flows
after_event (begun f) flows = put f flows
after_event (ended id res) flows = finish id res flows
after_event (swept now) flows = (sweep now flows).0

unfoldable pub after_events : List Event → Flows → Flows
after_events [] flows = flows
after_events (e ∷ es) flows = after_events es (after_event e flows)

-- An event that concerns other flows, or a sweep no later than a time.
abbrev pub spares : Str → ℕ → Event → Bool
spares id end (begun f) = not (f.id == id)
spares id end (ended j res) = not (j == id)
spares id end (swept now) = not (ltb end now)

lookup-sweep :
    (now : ℕ) (id : Str) (f : OauthFlow) (flows : Flows)
    → lookup id flows ≡ some f
    → ltb f.expires_at now ≡ false
    → lookup id (sweep now flows).0 ≡ some f
unfolding sweep
lookup-sweep now id f [] h k = absurd (cc)
lookup-sweep now id f ((j, g) ∷ flows) h k = ground (arith, lookup-sweep now id f flows)

lookup-after_event :
    (e : Event) (id : Str) (f : OauthFlow) (flows : Flows)
    → spares id f.expires_at e ≡ true
    → lookup id flows ≡ some f
    → lookup id (after_event e flows) ≡ some f
unfolding after_event put finish
lookup-after_event (begun g) id f flows s h = ground (arith, lookup-insert g.id id g flows)
lookup-after_event (ended j res) id f flows s h = elim (Option-cases (lookup j flows)) [
  | inl e ↦ rw (after_event, finish, e) h
  | inr (g, e) ↦
      rw (after_event, finish, e)
        (ground (arith, lookup-insert j id (close_flow (record g { result = some res })) flows))
]
lookup-after_event (swept now) id f flows s h = lookup-sweep now id f flows h (ground arith)

lookup-after_events :
    (es : List Event) (id : Str) (f : OauthFlow) (flows : Flows)
    → all_b (spares id f.expires_at) es ≡ true
    → lookup id flows ≡ some f
    → lookup id (after_events es flows) ≡ some f
unfolding after_events
lookup-after_events [] id f flows s h = h
lookup-after_events (e ∷ es) id f flows s h =
    lookup-after_events es id f (after_event e flows) (ground arith)
      (lookup-after_event e id f flows (ground arith) h)

get_flow-found :
    (now : ℕ) (id : Str) (f : OauthFlow) (flows : Flows)
    → lookup id flows ≡ some f
    → now ≤ f.expires_at
    → get_flow now id flows ≡ some f.result
unfolding get_flow
get_flow-found now id f flows h k = rw (get_flow, h) (ground arith)

lookup-put : (f : OauthFlow) (flows : Flows) → lookup f.id (put f flows) ≡ some f
unfolding put
lookup-put f flows = ground (arith, lookup-insert f.id f.id f flows, ==_iff f.id f.id)

lookup-finish :
    (id : Str) (f : OauthFlow) (res : FlowResult) (flows : Flows)
    → lookup id flows ≡ some f
    → lookup id (finish id res flows) ≡ some (close_flow (record f { result = some res }))
unfolding finish
lookup-finish id f res flows h =
    let g = close_flow (record f { result = some res }) in
    rw (finish, h) (ground (arith, lookup-insert id id g flows, ==_iff id id))

-- A flow that was begun is pending, and one that was ended has that result, at any time up to its
-- end, whatever happens to other flows in between and however often the sweeper runs up to then.
pub get_flow-after_events :
    (f : OauthFlow) (res : FlowResult) (es others : List Event) (now : ℕ) (flows : Flows)
    → f.result ≡ none
    → all_b (spares f.id f.expires_at) es ≡ true
    → all_b (spares f.id f.expires_at) others ≡ true
    → now ≤ f.expires_at
    → (get_flow now f.id (after_events es (put f flows)) ≡ some none)
      × (get_flow now f.id (after_events others (finish f.id res (after_events es (put f flows))))
          ≡ some (some res))
unfolding close_flow
get_flow-after_events f res es others now flows pending s o h =
    let then_flows = after_events es (put f flows) in
    let g : OauthFlow = close_flow (record f { result = some res }) in
    let first : lookup f.id then_flows ≡ some f =
      lookup-after_events es f.id f (put f flows) s (lookup-put f flows) in
    let second : lookup f.id (after_events others (finish f.id res then_flows)) ≡ some g =
      lookup-after_events others f.id g (finish f.id res then_flows) o
        (lookup-finish f.id f res then_flows first) in
    (
      get_flow-found now f.id f then_flows first h ∙ ap some pending,
      get_flow-found now f.id g (after_events others (finish f.id res then_flows)) second h,
    )

-- A sweep leaves only flows that are not over, closes the listener of each other one, all of which
-- are over, and loses none.
pub sweep_lem :
    (now : ℕ) (flows : Flows)
    → All (λ p. ltb (p.1).expires_at now ≡ false) (sweep now flows).0
      × All (λ f. (ltb f.expires_at now ≡ true) × (f.listens ≡ false)) (sweep now flows).1
      × (length (sweep now flows).0 + length (sweep now flows).1 ≡ length flows)
unfolding sweep close_flow
sweep_lem now [] = (tt, tt, refl)
sweep_lem now ((id, f) ∷ flows) =
    let (left, closed, all) = sweep_lem now flows in
    elim (Bool-cases (ltb f.expires_at now)) [
      | inl over ↦ rw over (left, ((over, refl), closed), omega (arith, all))
      | inr runs ↦ rw runs ((runs, left), closed, omega (arith, all))
    ]
