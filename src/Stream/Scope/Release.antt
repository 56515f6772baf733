-- ===== src/Stream/Scope/Release.antt =====
-- stream/scope.rs: how a scope ends, and what becomes of its consumer.
use kafka_file_writer.Base.{
  ap, ◌∙◌, sym, ℕ, String, ◌≡◌, ◌↔◌, refl, true, false, Option, none, some, List, [], ◌∷◌, arith,
}
use kafka_file_writer.Base.{Bool-cases, inl, inr}
use kafka_file_writer.Base.Int.{ℤ}
use kafka_file_writer.Base.Exec.{Result, ok, err}
use kafka_file_writer.Base.Loop.{Run}
use kafka_file_writer.Error.{FileWriterError, StreamError}
use kafka_file_writer.Stream.{Stream}
use kafka_file_writer.Stream.Fake
use kafka_file_writer.Stream.Fake.{FakeStream, fake_stream}
use kafka_file_writer.Stream.Scope.{
  combine, assigned, after_func, unassigned, with_assignment, subscribed, unsubscribed,
  with_subscription_to_job_pool,
}

combine-ok : {A : Type 0} (r : Result FileWriterError A) → combine r (ok tt) ≡ r
unfolding combine
combine-ok (ok a) = refl
combine-ok (err e) = refl

module _ {A T : Type 0} (consumer : Stream)
    (func : Run (T × consumer.State) FileWriterError A) where
  -- How a scope ended well: assigned, run, unassigned, all without an error.
  abbrev pub EndedWell : List String → ℤ → ℕ → T → consumer.State → A → T → consumer.State → Type 0
  EndedWell topics timestamp timeout t s a t' s' =
      (s₁ : consumer.State) × (s₂ : consumer.State) × (consumer.assign_from_timestamp topics
          timestamp timeout s
        ≡ (ok tt, s₁))
      × (func (t, s₁) ≡ some (ok a, (t', s₂)))
      × (consumer.unassign s₂ ≡ (ok tt, s'))

  unassigned-ok :
      (r : Result FileWriterError A) (t t' : T) (a : A) (s' : consumer.State)
      (u : Result StreamError (Unit {0}) × consumer.State)
      → unassigned consumer r t u ≡ some (ok a, (t', s'))
      → (r ≡ ok a) × (t ≡ t') × (u ≡ (ok tt, s'))
  unfolding unassigned combine
  unassigned-ok (ok b) t t' a s' (ok _, v) h = ground arith
  unassigned-ok (ok b) t t' a s' (err e, v) h = absurd (cc)
  unassigned-ok (err e) t t' a s' (ok _, v) h = absurd (cc)
  unassigned-ok (err e) t t' a s' (err _, v) h = absurd (cc)

  after_func-ok :
      (x : Option (Result FileWriterError A × (T × consumer.State))) (a : A) (t' : T)
      (s' : consumer.State)
      → after_func consumer x ≡ some (ok a, (t', s'))
      → (s₂ : consumer.State) × (x ≡ some (ok a, (t', s₂))) × (consumer.unassign s₂ ≡ (ok tt, s'))
  unfolding after_func
  after_func-ok none a t' s' h = absurd (cc)
  after_func-ok (some (r, (t, s₂))) a t' s' h =
      let (r_is, t_is, u_is) = unassigned-ok r t t' a s' (consumer.unassign s₂) h in (s₂, cc, u_is)

  assigned-ok :
      (t t' : T) (a : A) (s' : consumer.State) (x : Result StreamError (Unit {0}) × consumer.State)
      → assigned consumer func t x ≡ some (ok a, (t', s'))
      → (s₁ : consumer.State) × (s₂ : consumer.State) × (x ≡ (ok tt, s₁))
        × (func (t, s₁) ≡ some (ok a, (t', s₂)))
        × (consumer.unassign s₂ ≡ (ok tt, s'))
  unfolding assigned
  assigned-ok t t' a s' (err e, s₁) h = absurd (cc)
  assigned-ok t t' a s' (ok tt, s₁) h =
      let (s₂, ran, released) = after_func-ok (func (t, s₁)) a t' s' h in
      (s₁, s₂, refl, ran, released)

  EndedWell-ok :
      (topics : List String) (timestamp : ℤ) (timeout : ℕ) (t t' : T) (s s' : consumer.State)
      (a : A)
      → EndedWell topics timestamp timeout t s a t' s'
      → with_assignment consumer topics timestamp timeout func (t, s) ≡ some (ok a, (t', s'))
  unfolding with_assignment assigned after_func unassigned combine
  EndedWell-ok topics timestamp timeout t t' s s' a (s₁, s₂, taken, ran, released) =
      ap (assigned consumer func t) taken
      ∙ ap (after_func {A = A} {T = T} consumer) ran
      ∙ ap (unassigned {A = A} {T = T} consumer (ok a) t') released

  -- On any consumer, a scope returns a result without an error exactly if the consumer was assigned,
  -- the function returned that result and the consumer was unassigned, in this order and each
  -- without an error.
  pub with_assignment-ok :
      (topics : List String) (timestamp : ℤ) (timeout : ℕ) (t t' : T) (s s' : consumer.State)
      (a : A)
      → (with_assignment consumer topics timestamp timeout func (t, s) ≡ some (ok a, (t', s')))
        ↔ EndedWell topics timestamp timeout t s a t' s'
  unfolding with_assignment
  with_assignment-ok topics timestamp timeout t t' s s' a = (
    λ h. assigned-ok t t' a s' (consumer.assign_from_timestamp topics timestamp timeout s) h,
    λ well. EndedWell-ok topics timestamp timeout t t' s s' a well,
  )

assign-ok :
    (topics : List String) (timestamp : ℤ) (timeout : ℕ) (s : FakeStream)
    → s.assign_from_timestamp_causes_error ≡ false
    → Fake.assign_from_timestamp topics timestamp timeout s
      ≡ (ok tt, record s { is_assigned = true; topics = topics })
unfolding Fake.assign_from_timestamp
assign-ok topics timestamp timeout s h = ground arith

assign-failed :
    (topics : List String) (timestamp : ℤ) (timeout : ℕ) (s : FakeStream) (e : StreamError)
    → (Fake.assign_from_timestamp topics timestamp timeout s).0 ≡ err e
    → (Fake.assign_from_timestamp topics timestamp timeout s).1 ≡ s
unfolding Fake.assign_from_timestamp
assign-failed topics timestamp timeout s e h = ground arith

subscribe-ok :
    (topics : List String) (s : FakeStream)
    → s.subscribe_causes_error ≡ false
    → Fake.subscribe topics s ≡ (ok tt, record s { is_assigned = true; topics = topics })
unfolding Fake.subscribe
subscribe-ok topics s h = ground arith

module _ {A T : Type 0} where
  unassigned-free :
      (r r' : Result FileWriterError A) (t t' : T) (s s' : FakeStream)
      → unassigned fake_stream r t (Fake.unassign s) ≡ some (r', (t', s'))
      → s'.unassign_causes_error ≡ false
      → s'.is_assigned ≡ false
  unfolding unassigned Fake.unassign
  unassigned-free r r' t t' s s' h e = elim (Bool-cases s.unassign_causes_error) [
    | inl fails ↦ let same : s ≡ s' = ground arith in ground arith
    | inr works ↦ ground arith
  ]

  -- If the consumer can subscribe and the function returns, then its result is that of the scope,
  -- and the consumer is unsubscribed.
  pub with_subscription-unsubscribed :
      (consumer : Stream) (topic : String) (func : Run (T × consumer.State) FileWriterError A)
      (t t' : T) (s s₁ s' : consumer.State) (r : Result FileWriterError A)
      → consumer.subscribe (topic ∷ []) s ≡ (ok tt, s₁)
      → func (t, s₁) ≡ some (r, (t', s'))
      → with_subscription_to_job_pool consumer topic func (t, s)
        ≡ some (r, (t', consumer.unsubscribe s'))
  unfolding with_subscription_to_job_pool subscribed unsubscribed
  with_subscription-unsubscribed consumer topic func t t' s s₁ s' r h e =
      ap (subscribed consumer func t) h ∙ ap (unsubscribed {A = A} {T = T} consumer) e

  pub with_subscription-returns :
      (topic : String) (func : Run (T × FakeStream) FileWriterError A) (t t' : T)
      (s s' : FakeStream) (r : Result FileWriterError A)
      → s.subscribe_causes_error ≡ false
      → func (t, record s { is_assigned = true; topics = topic ∷ [] }) ≡ some (r, (t', s'))
      → with_subscription_to_job_pool fake_stream topic func (t, s)
        ≡ some (r, (t', Fake.unsubscribe s'))
  with_subscription-returns topic func t t' s s' r h e =
      with_subscription-unsubscribed fake_stream topic func t t' s _ s' r
        (subscribe-ok (topic ∷ []) s h) e

  -- If the consumer can be assigned and unassigned and the function returns, then its result is that
  -- of the scope.
  pub with_assignment-ends :
      (consumer : Stream) (topics : List String) (timestamp : ℤ) (timeout : ℕ)
      (func : Run (T × consumer.State) FileWriterError A) (t t' : T) (s s₁ s₂ : consumer.State)
      (r : Result FileWriterError A)
      → consumer.assign_from_timestamp topics timestamp timeout s ≡ (ok tt, s₁)
      → func (t, s₁) ≡ some (r, (t', s₂))
      → (consumer.unassign s₂).0 ≡ ok tt
      → with_assignment consumer topics timestamp timeout func (t, s)
        ≡ some (r, (t', (consumer.unassign s₂).1))
  unfolding with_assignment assigned after_func unassigned
  with_assignment-ends consumer topics timestamp timeout func t t' s s₁ s₂ r a e u =
      ap (assigned consumer func t) a
      ∙ ap (after_func {A = A} {T = T} consumer) e
      ∙ ap
          (λ (v : Result StreamError (Unit {0})).
            unassigned {A = A} {T = T} consumer r t' (v, (consumer.unassign s₂).1))
          u
      ∙ ap (λ (v : Result FileWriterError A). some (v, (t', (consumer.unassign s₂).1)))
          (combine-ok r)

  after_func-free :
      (x : Option (Result FileWriterError A × (T × FakeStream))) (r' : Result FileWriterError A)
      (t' : T) (s' : FakeStream)
      → after_func fake_stream x ≡ some (r', (t', s'))
      → s'.unassign_causes_error ≡ false
      → s'.is_assigned ≡ false
  unfolding after_func
  after_func-free none r' t' s' h e = absurd (cc)
  after_func-free (some (r, (t, s))) r' t' s' h e = unassigned-free r r' t t' s s' h e

  assigned-free :
      (func : Run (T × FakeStream) FileWriterError A) (t t' : T) (s' : FakeStream)
      (r' : Result FileWriterError A) (x : Result StreamError (Unit {0}) × FakeStream)
      → assigned fake_stream func t x ≡ some (r', (t', s'))
      → ((e : StreamError) → x.0 ≡ err e → x.1.is_assigned ≡ false)
      → s'.unassign_causes_error ≡ false
      → s'.is_assigned ≡ false
  unfolding assigned
  assigned-free func t t' s' r' (err e, s) h free can =
      let same : s ≡ s' = cc in ap FakeStream.is_assigned (sym same) ∙ free e refl
  assigned-free func t t' s' r' (ok _, s) h free can = after_func-free (func (t, s)) r' t' s' h can

  -- However a scope of a fake stream returns, with a result or an error of the assignment, the
  -- function or the release: a stream that was free before it and that can unassign is free after
  -- it.
  pub with_assignment-free :
      (func : Run (T × FakeStream) FileWriterError A) (t t' : T) (s s' : FakeStream)
      (r' : Result FileWriterError A) (topics : List String) (timestamp : ℤ) (timeout : ℕ)
      → with_assignment fake_stream topics timestamp timeout func (t, s) ≡ some (r', (t', s'))
      → s.is_assigned ≡ false
      → s'.unassign_causes_error ≡ false
      → s'.is_assigned ≡ false
  unfolding with_assignment
  with_assignment-free func t t' s s' r' topics timestamp timeout h free e =
      assigned-free func t t' s' r' (Fake.assign_from_timestamp topics timestamp timeout s) h
        (λ f failed.
          ap FakeStream.is_assigned (assign-failed topics timestamp timeout s f failed) ∙ free)
        e

  unassigned-returns :
      (r : Result FileWriterError A) (t : T) (s : FakeStream)
      → s.unassign_causes_error ≡ false
      → unassigned fake_stream r t (Fake.unassign s)
        ≡ some (r, (t, record s { is_assigned = false; topics = [] }))
  unfolding unassigned combine Fake.unassign
  unassigned-returns (ok a) t s h = rw h refl
  unassigned-returns (err e) t s h = rw h refl

  -- On a consumer that can assign and unassign, the function's result is that of the scope.
  pub with_assignment-returns :
      (topics : List String) (timestamp : ℤ) (timeout : ℕ)
      (func : Run (T × FakeStream) FileWriterError A) (t t' : T) (s s' : FakeStream)
      (r : Result FileWriterError A)
      → s.assign_from_timestamp_causes_error ≡ false
      → s'.unassign_causes_error ≡ false
      → func (t, record s { is_assigned = true; topics = topics }) ≡ some (r, (t', s'))
      → with_assignment fake_stream topics timestamp timeout func (t, s)
        ≡ some (r, (t', record s' { is_assigned = false; topics = [] }))
  unfolding with_assignment assigned after_func
  with_assignment-returns topics timestamp timeout func t t' s s' r a u e =
      ap (assigned fake_stream func t) (assign-ok topics timestamp timeout s a)
      ∙ ap (after_func {A = A} {T = T} fake_stream) e
      ∙ unassigned-returns r t' s' u
