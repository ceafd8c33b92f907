-- ===== src/Http/Leaves.antt =====
-- Parts of the state that a handler leaves alone, with a rule for each way to build a handler, and
-- the inversion of a handler that returned.
use webhook_relay_service.Prelude.{refl, ◌∙◌, ◌≡◌}
use webhook_relay_service.Http.{Result, raised, ok}
use webhook_relay_service.Http.Action.{Action, pure, lift, gets, continue, ◌>>=◌}

module _ {S X : Type 0} where
  -- Whether it returns or raises, the part `view` of the state stays as it was.
  pub record Leaves {A : Type 0} (view : S → X) (m : Action S A) : Type 0 where
    pub same : (s : S) → view (m s).1 ≡ view s

module _ {S X A : Type 0} {view : S → X} where
  pub Leaves-pure : (a : A) → Leaves view (pure a)
  Leaves-pure a = record { same = λ s. refl }

  pub Leaves-lift : (result : Result A) → Leaves view (lift result)
  Leaves-lift result = record { same = λ s. refl }

  pub Leaves-gets : (f : S → A) → Leaves view (gets f)
  Leaves-gets f = record { same = λ s. refl }

module _ {S X A B : Type 0} {view : S → X} where
  continue-same :
      (result : Result A) (f : A → Action S B) (s : S)
      → ((a : A) → Leaves view (f a))
      → view (continue result f s).1 ≡ view s
  continue-same (ok a) f s h = (h a).same s
  continue-same (raised e) f s h = refl

  pub Leaves-bind :
      (m : Action S A) (f : A → Action S B)
      → Leaves view m
      → ((a : A) → Leaves view (f a))
      → Leaves view (m >>= f)
  Leaves-bind m f hm hf = record { same = λ s. continue-same (m s).0 f (m s).1 hf ∙ hm.same s }

pub ruleset leaves_rules = (Leaves-pure, Leaves-lift, Leaves-gets, Leaves-bind)

module _ {S A B : Type 0} where
  continue-eq-ok :
      (result : Result A) (f : A → Action S B) (s : S) (b : B)
      → (continue result f s).0 ≡ ok b
      → (a : A) × (result ≡ ok a) × ((f a s).0 ≡ ok b)
  continue-eq-ok (ok a) f s b h = (a, refl, h)
  continue-eq-ok (raised e) f s b h = cc

  -- If a chain returned, its first part did, and the rest did from the state that it left.
  pub bind-eq-ok :
      (m : Action S A) (f : A → Action S B) (s : S) (b : B)
      → ((m >>= f) s).0 ≡ ok b
      → (a : A) × ((m s).0 ≡ ok a) × ((f a (m s).1).0 ≡ ok b)
  bind-eq-ok m f s b h = continue-eq-ok (m s).0 f (m s).1 b h
