-- ===== src/Cluster/Server/Leads.antt =====
-- What holds after a call that returns, and what holds after one that does not.
use model_registry_service.Base.{String, ◌≡◌, refl, Bool, true, false}
use model_registry_service.Domain.Result.{Error, Result, ok, err, panic}
use model_registry_service.Cluster.Server.{
  Act, modify, continue, ◌>>=◌, raise_if, gets, pure, lift, wrap, wrapping,
}
use model_registry_service.Cluster.Server.Keeps.{Keeps}

module _ {S : Type 0} where
  -- `Q` of a result and the state, `F` of the state otherwise.
  abbrev pub Ends : {A : Type 0} → (A → S → Type 0) → (S → Type 0) → Result A → S → Type 0
  Ends Q F (ok a) s = Q a s
  Ends Q F (err e) s = F s
  Ends Q F panic s = F s

  pub record Leads {A : Type 0} (P : S → Type 0) (m : Act S A) (Q : A → S → Type 0) (F : S → Type 0)
      : Type 0 where
    pub at : (s : S) → P s → Ends Q F (m s).0 (m s).1

  continue-Ends :
      {A B : Type 0} {Q : A → S → Type 0} {R : B → S → Type 0} {F : S → Type 0} (r : Result A)
      (f : A → Act S B) (s : S)
      → Ends Q F r s
      → ((a : A) → Leads (Q a) (f a) R F)
      → Ends R F (continue r f s).0 (continue r f s).1
  continue-Ends (ok a) f s h k = (k a).at s h
  continue-Ends (err e) f s h k = h
  continue-Ends panic f s h k = h

  pub Leads-bind :
      {A B : Type 0} {P : S → Type 0} {m : Act S A} {f : A → Act S B} {Q : A → S → Type 0}
      {R : B → S → Type 0} {F : S → Type 0}
      → Leads P m Q F
      → ((a : A) → Leads (Q a) (f a) R F)
      → Leads P (m >>= f) R F
  unfolding ◌>>=◌
  Leads-bind {m = m} {f = f} first rest = record {
    at = λ s h. continue-Ends (m s).0 f (m s).1 (first.at s h) rest;
  }

  either :
      {A : Type 0} {P F : S → Type 0} (r : Result A) (s : S)
      → P s
      → ((s : S) → P s → F s)
      → Ends (λ _. P) F r s
  either (ok a) s h k = h
  either (err e) s h k = k s h
  either panic s h k = k s h

  -- What every outcome keeps.
  pub Leads-of :
      {A : Type 0} {P F : S → Type 0} {m : Act S A}
      → ((s : S) → P s → F s)
      → Keeps P m
      → Leads P m (λ _. P) F
  Leads-of {m = m} weaker h = record { at = λ s p. either (m s).0 (m s).1 (h.keeps s p) weaker }

  ends_in : {A : Type 0} (F : S → Type 0) (r : Result A) (s : S) → Ends (λ _. F) F r s → F s
  ends_in F (ok a) s h = h
  ends_in F (err e) s h = h
  ends_in F panic s h = h

  pub Keeps-of : {A : Type 0} {F : S → Type 0} {m : Act S A} → Leads F m (λ _. F) F → Keeps F m
  Keeps-of {m = m} h = record { keeps = λ s p. ends_in _ (m s).0 (m s).1 (h.at s p) }

  wrap-Ends :
      {A : Type 0} (Q : A → S → Type 0) (F : S → Type 0) (text : String) (r : Result A) (s : S)
      → Ends Q F r s
      → Ends Q F (wrap text r) s
  wrap-Ends Q F text (ok a) s h = h
  wrap-Ends Q F text (err e) s h = h
  wrap-Ends Q F text panic s h = h

  pub Leads-wrapping :
      {A : Type 0} {P : S → Type 0} {m : Act S A} {Q : A → S → Type 0} {F : S → Type 0}
      (text : String)
      → Leads P m Q F
      → Leads P (wrapping text m) Q F
  unfolding wrapping
  Leads-wrapping {m = m} text h = record {
    at = λ s p. wrap-Ends _ _ text (m s).0 (m s).1 (h.at s p);
  }

  pub Leads-raise_if :
      {P F : S → Type 0} (b : Bool) (e : Error)
      → ((s : S) → P s → F s)
      → Leads P (raise_if b e) (λ _ s. P s × (b ≡ false)) F
  Leads-raise_if true e weaker = record { at = weaker }
  Leads-raise_if false e weaker = record { at = λ s h. (h, refl) }

  pub Leads-gets :
      {A : Type 0} {P F : S → Type 0} (g : S → A) → Leads P (gets g) (λ a s. P s × (a ≡ g s)) F
  Leads-gets g = record { at = λ s h. (h, refl) }

  pub Leads-pure :
      {A : Type 0} {P F : S → Type 0} {Q : A → S → Type 0} (a : A)
      → ((s : S) → P s → Q a s)
      → Leads P (pure a) Q F
  Leads-pure a h = record { at = h }

  pub Leads-modify :
      {P Q F : S → Type 0} (g : S → S) → ((s : S) → P s → Q (g s)) → Leads P (modify g) (λ _. Q) F
  Leads-modify g h = record { at = h }

  pub Leads-lift :
      {A : Type 0} {P F : S → Type 0} (r : Result A)
      → ((s : S) → P s → F s)
      → Leads P (lift r) (λ a s. P s × (r ≡ ok a)) F
  Leads-lift (ok a) weaker = record { at = λ s h. (h, refl) }
  Leads-lift (err e) weaker = record { at = weaker }
  Leads-lift panic weaker = record { at = weaker }

  pub Leads-weaken :
      {A : Type 0} {P P' : S → Type 0} {m : Act S A} {Q : A → S → Type 0} {F : S → Type 0}
      → ((s : S) → P s → P' s)
      → Leads P' m Q F
      → Leads P m Q F
  Leads-weaken weaker h = record { at = λ s p. h.at s (weaker s p) }
