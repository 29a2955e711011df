-- ===== src/World/Effect.antt =====
-- Code with side effects that may stop: what was written before a fault stays written, so the
-- world comes back beside the fault too.
use yijinjing_lite.Prelude.{◌≡◌, refl, ap, arith}

pub data Fault : Type 0 where
  -- std::runtime_error, by what the text says first
  version_mismatch more_than_one_writer cannot_register_client cannot_register_journal : Fault
  buffer_not_allocated : Fault
  -- exit(EXIT_FAILURE)
  exit_failure : Fault
  -- a null `shared_ptr` is dereferenced
  null_pointer : Fault
  -- the call is undefined, as `erase` of the end of a map
  undefined_behaviour : Fault
  -- the model's bound on a loop is used up
  out_of_fuel : Fault

pub data Result (A : Type 0) : Type 0 where
  ok : A → Result A
  fault : Fault → Result A

abbrev pub Run : Type 0 → Type 0 → Type 0
Run S A = S → Result A × S

module _ {S A : Type 0} where
  abbrev pub pure : A → Run S A
  pure a s = (ok a, s)

  abbrev pub raise : Fault → Run S A
  raise e s = (fault e, s)

module _ {S A B : Type 0} where
  abbrev pub continue : Result A → (A → Run S B) → Run S B
  continue (ok a) f s = f a s
  continue (fault e) f s = (fault e, s)

  infixl 5 ◌>>=◌ ◌>>◌
  abbrev pub ◌>>=◌ : Run S A → (A → Run S B) → Run S B
  ◌>>=◌ m f s = let (r, s') = m s in continue r f s'

  abbrev pub ◌>>◌ : Run S A → Run S B → Run S B
  m >> n = m >>= λ _. n

-- A relation between the states before and after that composes holds of a `do` block if it holds of
-- its parts, whether they return or stop.
module _ {S A B : Type 0} (R : S → S → Type 0) (R_trans : (s t u : S) → R s t → R t u → R s u) where
  continue_keeps :
      (s : S) (r : Result A) (t : S) (f : A → Run S B)
      → R s t
      → ((a : A) → r ≡ ok a → R t (f a t).1)
      → R s (continue r f t).1
  continue_keeps s (ok a) t f h k = R_trans s t _ h (k a refl)
  continue_keeps s (fault e) t f h k = h

  pub bind_keeps :
      (m : Run S A) (f : A → Run S B) (s : S)
      → R s (m s).1
      → ((a : A) → (m s).0 ≡ ok a → R (m s).1 (f a (m s).1).1)
      → R s ((m >>= f) s).1
  bind_keeps m f s h k = continue_keeps s (m s).0 (m s).1 f h k

-- What its first part reaches and its second one leads on from there; a stop in the first part
-- leaves the former, which is to imply the latter.
module _ {S A B : Type 0} (P Q : S → Type 0) (weaker : (s : S) → P s → Q s) where
  continue_reaches :
      (r : Result A) (t : S) (f : A → Run S B)
      → P t
      → ((a : A) → r ≡ ok a → P t → Q (f a t).1)
      → Q (continue r f t).1
  continue_reaches (ok a) t f h k = k a refl h
  continue_reaches (fault e) t f h k = weaker t h

  pub bind_reaches :
      (m : Run S A) (f : A → Run S B) (s : S)
      → P (m s).1
      → ((a : A) → (m s).0 ≡ ok a → P (m s).1 → Q (f a (m s).1).1)
      → Q ((m >>= f) s).1
  bind_reaches m f s h k = continue_reaches (m s).0 (m s).1 f h k

-- A `do` block that returns has run all its parts.
module _ {S A B : Type 0} where
  continue-ok :
      (r : Result A) (f : A → Run S B) (t : S) (b : B)
      → (continue r f t).0 ≡ ok b
      → (a : A) × (r ≡ ok a) × ((f a t).0 ≡ ok b) × ((continue r f t).1 ≡ (f a t).1)
  continue-ok (ok a) f t b h = (a, refl, h, refl)
  continue-ok (fault e) f t b h = ground (arith, h)

  pub bind-ok :
      (m : Run S A) (f : A → Run S B) (s : S) (b : B)
      → ((m >>= f) s).0 ≡ ok b
      → (a : A) × ((m s).0 ≡ ok a) × ((f a (m s).1).0 ≡ ok b) × (((m >>= f) s).1 ≡ (f a (m s).1).1)
  bind-ok m f s b h = continue-ok (m s).0 f (m s).1 b h

-- A part that returns hands its result and its state on.
module _ {S A B : Type 0} where
  pub bind_returns :
      (m : Run S A) (f : A → Run S B) (s t : S) (a : A) → m s ≡ (ok a, t) → (m >>= f) s ≡ f a t
  bind_returns m f s t a e = ap (λ (r : Result A × S). continue r.0 f r.1) e
