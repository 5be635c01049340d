-- ===== src/Action/Outcomes.antt =====
-- Postconditions of actions: what holds of the result and the state when the action returns, and
-- what holds of the exception and the state when it raises. One rule for each way to combine.
use eth_project.Prelude.{◌≡◌, refl, Bool, true, false}
use eth_project.Action.{
  Action, Exception, Result, ok, raised, continue, ◌>>=◌, call, handled, on_exception, finally,
}

abbrev pub After :
    {S A : Type 0} → (A → S → Type 0) → (Exception → S → Type 0) → Result A → S → Type 0
After Q E (ok a) s = Q a s
After Q E (raised e) s = E e s

abbrev pub Ensures :
    {S A : Type 0} → (A → S → Type 0) → (Exception → S → Type 0) → Action S A → S → Type 0
Ensures Q E m s = After Q E (m s).0 (m s).1

module _ {S A B : Type 0} (Q : A → S → Type 0) (R : B → S → Type 0)
    (E : Exception → S → Type 0) where
  After-continue :
      (f : A → Action S B) (r : Result A) (s : S)
      → After Q E r s
      → ((a : A) (t : S) → Q a t → Ensures R E (f a) t)
      → Ensures R E (continue r f) s
  After-continue f (ok a) s h k = k a s h
  After-continue f (raised e) s h k = h

  pub Ensures-bind :
      (m : Action S A) (f : A → Action S B) (s : S)
      → Ensures Q E m s
      → ((a : A) (t : S) → Q a t → Ensures R E (f a) t)
      → Ensures R E (m >>= f) s
  Ensures-bind m f s h k = After-continue f (m s).0 (m s).1 h k

module _ {S : Type 0} (Q : Unit {0} → S → Type 0) (E : Exception → S → Type 0) where
  pub Ensures-call :
      (b : Bool) (e : Exception) (f : S → S) (s : S)
      → (b ≡ true → Q tt (f s))
      → (b ≡ false → E e s)
      → Ensures Q E (call b e f) s
  Ensures-call true e f s good bad = good refl
  Ensures-call false e f s good bad = bad refl

module _ {S A : Type 0} (Q : A → S → Type 0) (E F : Exception → S → Type 0) where
  After-handled :
      (h : Action S (Unit {0})) (r : Result A) (s : S)
      → After Q E r s
      → ((e : Exception) (t : S) → E e t → Ensures (λ _ u. F e u) F h t)
      → Ensures Q F (handled r h) s
  After-handled h (ok a) s p k = p
  After-handled h (raised e) s p k =
      After-continue (λ _ u. F e u) Q F (λ _ t. (raised e, t)) (h s).0 (h s).1 (k e s p)
        (λ _ t q. q)

  pub Ensures-on_exception :
      (m : Action S A) (h : Action S (Unit {0})) (s : S)
      → Ensures Q E m s
      → ((e : Exception) (t : S) → E e t → Ensures (λ _ u. F e u) F h t)
      → Ensures Q F (on_exception m h) s
  Ensures-on_exception m h s p k = After-handled h (m s).0 (m s).1 p k

module _ {S A : Type 0} (Q Q' : A → S → Type 0) (E F : Exception → S → Type 0) where
  finish :
      (last : Action S (Unit {0})) (r : Result A) (t : S)
      → After Q E r t
      → ((a : A) (u : S) → Q a u → Ensures (λ _ v. Q' a v) F last u)
      → ((e : Exception) (u : S) → E e u → Ensures (λ _ v. F e v) F last u)
      → Ensures Q' F (λ u. let (r', v) = last u in continue r' (λ _ w. (r, w)) v) t
  finish last (ok a) t p good bad =
      After-continue (λ _ v. Q' a v) Q' F (λ _ w. (ok a, w)) (last t).0 (last t).1 (good a t p)
        (λ _ v q. q)
  finish last (raised e) t p good bad =
      After-continue (λ _ v. F e v) Q' F (λ _ w. (raised e, w)) (last t).0 (last t).1 (bad e t p)
        (λ _ v q. q)

  pub Ensures-finally :
      (m : Action S A) (last : Action S (Unit {0})) (s : S)
      → Ensures Q E m s
      → ((a : A) (u : S) → Q a u → Ensures (λ _ v. Q' a v) F last u)
      → ((e : Exception) (u : S) → E e u → Ensures (λ _ v. F e v) F last u)
      → Ensures Q' F (finally m last) s
  Ensures-finally m last s p good bad = finish last (m s).0 (m s).1 p good bad
