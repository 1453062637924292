-- ===== src/Host/Triples.antt =====
-- What holds of the storage after an action that returned a value, from what holds of it before.
use swaptrade_contract.Prelude.{◌≡◌, refl, Option, none, some}
use swaptrade_contract.Host.{ok, World, Action, or_raise, ◌>>=◌, >>=-eq-ok}

module _ {E S Ev L : Type 0} where
  pub record Triple {A : Type 0} (P : S → Type 0) (m : Action E (World S Ev L) A)
      (Q : A → S → Type 0) : Type 0 where
    pub run : (w : World S Ev L) (a : A) → P w.store → (m w).0 ≡ ok a → Q a (m w).1.store

  pub then_lem :
      {A B : Type 0} {P : S → Type 0} {Q : A → S → Type 0} {R : B → S → Type 0}
      (m : Action E (World S Ev L) A) (f : A → Action E (World S Ev L) B)
      → Triple P m Q
      → ((a : A) → Triple (Q a) (f a) R)
      → Triple P (m >>= f) R
  then_lem m f t u = record {
    run = λ w b p h.
        let (a, e, k, s) = >>=-eq-ok m f w b h in rw s ((u a).run (m w).1 b (t.run w a p e) k);
  }

  -- An action that writes nothing to the storage.
  abbrev pub Silent : {A : Type 0} → Action E (World S Ev L) A → Type 0
  Silent m = (w : World S Ev L) → (m w).1.store ≡ w.store

  pub after_silent :
      {A B : Type 0} {P : S → Type 0} {R : B → S → Type 0} (m : Action E (World S Ev L) A)
      (f : A → Action E (World S Ev L) B)
      → Silent m
      → ((a : A) → Triple P (f a) R)
      → Triple P (m >>= f) R
  after_silent {A} {B} {P} m f s u =
      then_lem {Q = λ _. P} m f (record { run = λ w a p e. rw (s w) p }) u

  pub silent-Triple :
      {A : Type 0} {P : S → Type 0} (m : Action E (World S Ev L) A) → Silent m → Triple P m (λ _. P)
  silent-Triple m s = record { run = λ w a p e. rw (s w) p }

  pub or_raise-Silent : {A : Type 0} (o : Option A) (e : E) → Silent (or_raise o e)
  or_raise-Silent none e w = refl
  or_raise-Silent (some a) e w = refl
