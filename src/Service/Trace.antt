-- ===== src/Service/Trace.antt =====
-- Lemmas on the steps of a start (node/src/service.rs): which events a step adds where it succeeds,
-- and how far it gets where it fails.
use mathlib.Core.List.{append_assoc, append-nil}
use mathlib.Core.Path.{subst}
use lunes_nightly.Prelude.{
  ◌≡◌, refl, sym, ap, ◌∙◌, Result, ok, err, List, [], ◌∷◌, ◌++◌, Action, map_err,
}
use lunes_nightly.Service.{Event, Node, Step, pure, raise, ◌>>=◌, noting, calling, converting}

module _ {W E : Type 0} where
  -- The result of a step that starts behind the events `before`: a success has added all of
  -- `events` to them, and an error has added the first few of `events`.
  abbrev pub Added : {A : Type 0} → List Event → List Event → Result E A × Node W → Type 0
  Added before events (ok a, s) = s.events ≡ before ++ events
  Added before events (err e, s) =
      (done : List Event) × (rest : List Event) × (done ++ rest ≡ events)
      × (s.events ≡ before ++ done)

  -- A step that adds `events`.
  unfoldable pub Adds : {A : Type 0} → Step W E A → List Event → Type 0
  Adds m events = (s : Node W) → Added s.events events (m s)

  Added-append :
      {A : Type 0} (before middle events : List Event) (out : Result E A × Node W)
      → Added (before ++ middle) events out
      → Added before (middle ++ events) out
  Added-append before middle events (ok a, s) h = h ∙ append_assoc before middle events
  Added-append before middle events (err e, s) (done, rest, parts, h) = (
    middle ++ done,
    rest,
    append_assoc middle done rest ∙ ap (λ t. middle ++ t) parts,
    h ∙ append_assoc before middle done,
  )

  -- What a step returns, where it succeeds, satisfies `P`.
  abbrev pub Returned : {A : Type 0} → (A → Type 0) → Result E A × Node W → Type 0
  Returned P (ok a, s) = P a
  Returned P (err e, s) = Unit

  Added-bind :
      (A B : Type 0) (P : A → Type 0) (before events more : List Event) (out : Result E A × Node W)
      (f : A → Step W E B)
      → Added {A = A} before events out
      → Returned {A = A} P out
      → ((a : A) → P a → Adds (f a) more)
      → Added {A = B} before
          (events ++ more)
          (elim out.0 [ ok a ↦ f a out.1 | err e ↦ (err e, out.1) ])
  unfolding Adds
  Added-bind A B P before events more (ok a, s) f h p g =
      Added-append before events more (f a s)
        (subst (λ t. Added {A = B} t more (f a s)) h (g a p s))
  Added-bind A B P before events more (err e, s) f (done, rest, parts, h) p g =
      (done, rest ++ more, sym (append_assoc done rest more) ∙ ap (λ t. t ++ more) parts, h)

  pub Adds-bind_returning :
      {A B : Type 0} (P : A → Type 0) (m : Step W E A) (f : A → Step W E B)
      (events more : List Event)
      → Adds m events
      → ((s : Node W) → Returned P (m s))
      → ((a : A) → P a → Adds (f a) more)
      → Adds (m >>= f) (events ++ more)
  unfolding Adds ◌>>=◌
  Adds-bind_returning {A = A} {B = B} P m f events more h p g s =
      Added-bind A B P s.events events more (m s) f (h s) (p s) g

  any-Returned : (A : Type 0) (out : Result E A × Node W) → Returned {A = A} (λ _. Unit) out
  any-Returned A (ok a, s) = tt
  any-Returned A (err e, s) = tt

  pub Adds-bind :
      {A B : Type 0} (m : Step W E A) (f : A → Step W E B) (events more : List Event)
      → Adds m events
      → ((a : A) → Adds (f a) more)
      → Adds (m >>= f) (events ++ more)
  Adds-bind {A = A} m f events more h g =
      Adds-bind_returning (λ _. Unit) m f events more h (λ s. any-Returned A (m s)) (λ a _. g a)

  Added-noting :
      {A : Type 0} (e : Event) (s : Node W) (r : Result E A) (w : W)
      → Added {A = A} s.events (e ∷ []) (elim r [
        | ok a ↦ (ok a, record { world = w; events = s.events ++ e ∷ [] })
        | err x ↦ (err x, record s { world = w })
      ])
  Added-noting e s (ok a) w = refl
  Added-noting e s (err x) w = ([], e ∷ [], refl, sym (append-nil s.events))

  pub Adds-noting : {A : Type 0} (e : Event) (m : Action W E A) → Adds (noting e m) (e ∷ [])
  unfolding Adds noting
  Adds-noting e m s = Added-noting e s (m s.world).0 (m s.world).1

  pub Adds-noting_eq :
      {A : Type 0} (e e' : Event) (m : Action W E A) → e ≡ e' → Adds (noting e m) (e' ∷ [])
  Adds-noting_eq e e' m same = subst (λ x. Adds (noting e m) (x ∷ [])) same (Adds-noting e m)

  -- What follows an error is not done.
  pub bind_err :
      {A B : Type 0} (m : Step W E A) (f : A → Step W E B) (e : E) (s s' : Node W)
      → m s ≡ (err e, s')
      → (m >>= f) s ≡ (err e, s')
  unfolding ◌>>=◌
  bind_err {A = A} m f e s s' h =
      ap (λ (out : Result E A × Node W). elim out.0 [ ok a ↦ f a out.1 | err x ↦ (err x, out.1) ]) h

  Added-calling :
      {A : Type 0} (s : Node W) (r : Result E A) (w : W)
      → Added {A = A} s.events [] (r, record s { world = w })
  Added-calling s (ok a) w = sym (append-nil s.events)
  Added-calling s (err x) w = ([], [], refl, sym (append-nil s.events))

  pub Adds-calling : {A : Type 0} (m : Action W E A) → Adds (calling m) []
  unfolding Adds calling
  Adds-calling m s = Added-calling s (m s.world).0 (m s.world).1

  Returned-after :
      {A B : Type 0} (P : B → Type 0) (out : Result E A × Node W) (f : A → Step W E B)
      → ((a : A) (s : Node W) → Returned P (f a s))
      → Returned {A = B} P (elim out.0 [ ok a ↦ f a out.1 | err e ↦ (err e, out.1) ])
  Returned-after P (ok a, s) f h = h a s
  Returned-after P (err e, s) f h = tt

  pub Returned-bind :
      {A B : Type 0} (P : B → Type 0) (m : Step W E A) (f : A → Step W E B)
      → ((a : A) (s : Node W) → Returned P (f a s))
      → (s : Node W) → Returned P ((m >>= f) s)
  unfolding ◌>>=◌
  Returned-bind P m f h s = Returned-after P (m s) f h

Added-converting :
    {W E F A : Type 0} (convert : E → F) (before events : List Event) (r : Result E A) (s : Node W)
    → Added {A = A} before events (r, s)
    → Added {A = A} before events (map_err convert r, s)
Added-converting convert before events (ok a) s h = h
Added-converting convert before events (err e) s h = h

pub Adds-converting :
    {W E F A : Type 0} (convert : E → F) (m : Step W E A) (events : List Event)
    → Adds m events
    → Adds (converting convert m) events
unfolding Adds converting
Adds-converting convert m events h s =
    Added-converting convert s.events events (m s).0 (m s).1 (h s)

module _ {W E A B : Type 0} (m : Action W E A) (f : A → Step W E B) where
  -- What follows a call that has succeeded.
  pub called :
      (s : Node W) (a : A) (w : W)
      → m s.world ≡ (ok a, w)
      → (calling m >>= f) s ≡ f a (record s { world = w })
  unfolding calling ◌>>=◌
  called s a w h =
      ap
        (λ (out : Result E A × W). elim out.0 as (λ _. Result E B × Node W) [
          | ok a ↦ f a (record s { world = out.1 })
          | err x ↦ (err x, record s { world = out.1 })
        ])
        h

  pub Added-called :
      (s : Node W) (a : A) (w : W) (events : List Event)
      → m s.world ≡ (ok a, w)
      → Adds (f a) events
      → Added {A = B} s.events events ((calling m >>= f) s)
  unfolding Adds
  Added-called s a w events h adds =
      subst (λ out. Added {A = B} s.events events out) (sym (called s a w h))
        (adds (record s { world = w }))

module _ (W E : Type 0) where
  pub Adds-pure : {A : Type 0} (a : A) → Adds (pure {W = W} {E = E} a) []
  unfolding Adds pure
  Adds-pure a s = sym (append-nil s.events)

  pub Adds-raise :
      (A : Type 0) (e : E) (events : List Event) → Adds {A = A} (raise {W = W} e) events
  unfolding Adds raise
  Adds-raise A e events s = ([], events, refl, sym (append-nil s.events))

  pub Returned-pure :
      {A : Type 0} (P : A → Type 0) (a : A)
      → P a
      → (s : Node W) → Returned {W = W} {E = E} P (pure a s)
  unfolding pure
  Returned-pure P a p s = p
