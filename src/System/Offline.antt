-- ===== src/System/Offline.antt =====
-- Steps that make no system call: whatever the allocations give, they leave the device and the system
-- calls to come as they are. A rule for each kind of step, and one for their sequence.
use eoblock.System.{
  World, Outcome, ok, err, abort, fault, M, continue, ◌>>=◌, pure, die, undefined, set_err,
  in_bounds, verify, malloc, calloc, fit, Block, null, stale, retrace, traced,
}
use eoblock.Errors.{is_eob_err}
use eoblock.Prelude.{
  ℕ, ◌≡◌, refl, ◌∙◌, arith, Bool, true, false, List, [], ◌∷◌, ◌++◌, length, replicate, length-take,
  length-append, length-replicate, if-elim,
}

-- The device and the calls to come are those of the first world.
pub record Same (w v : World) : Type 0 where
  pub disk : v.disk ≡ w.disk
  pub events : v.events ≡ w.events

same : {w : World} → Same w w
same = record { disk = refl; events = refl }

Same-trans : {u v w : World} → Same u v → Same v w → Same u w
Same-trans a b = record { disk = b.disk ∙ a.disk; events = b.events ∙ a.events }

-- How a step from a world ends; `Q` holds of what it returns.
pub data Ends {ℓ} {A : Type ℓ} (Q : A → Type 0) (w : World) : Outcome A × World → Type ℓ where
  returns : {a : A} {v : World} → Same w v → Q a → Ends Q w (ok a, v)
  fails : {e : ℕ} {v : World} → Same w v → Ends Q w (err e, v)
  aborts : {v : World} → Same w v → Ends Q w (abort, v)
  faults : {v : World} → Same w v → Ends Q w (fault, v)

-- The step ends so from every world.
pub record Offline {ℓ} {A : Type ℓ} (Q : A → Type 0) (m : M A) : Type ℓ where
  pub at : (w : World) → Ends Q w (m w)

module _ {ℓ} {A : Type ℓ} {Q : A → Type 0} where
  pub Offline-pure : {a : A} → Q a → Offline Q (pure a)
  Offline-pure q = record { at = λ w. returns same q }

  pub Offline-set_err : (e : ℕ) → Offline Q (set_err {A = A} e)
  Offline-set_err e =
      if-elim (λ (m : M A). Offline Q m) (is_eob_err e) (λ _. record { at = λ w. fails same })
        (λ _. record { at = λ w. aborts same })

  pub Offline-undefined : Offline Q (undefined {A = A})
  Offline-undefined = record { at = λ w. faults same }

  pub Offline-die : Offline Q (die {A = A})
  Offline-die = record { at = λ w. aborts same }

  Ends-trans : {u v : World} {r : Outcome A × World} → Same u v → Ends Q v r → Ends Q u r
  Ends-trans s (returns t q) = returns (Same-trans s t) q
  Ends-trans s (fails t) = fails (Same-trans s t)
  Ends-trans s (aborts t) = aborts (Same-trans s t)
  Ends-trans s (faults t) = faults (Same-trans s t)

  Ends-retrace : {w : World} {r : Outcome A × World} → Ends Q w r → Ends Q w (retrace r)
  Ends-retrace (returns t q) = returns t q
  Ends-retrace (fails {e} {v} t) = Ends-trans t ((Offline-set_err e).at v)
  Ends-retrace (aborts t) = aborts t
  Ends-retrace (faults t) = faults t

  pub Offline-traced : {m : M A} → Offline Q m → Offline Q (traced m)
  Offline-traced h = record { at = λ w. Ends-retrace (h.at w) }

module _ {ℓ κ} {A : Type ℓ} {B : Type κ} {P : A → Type 0} {Q : B → Type 0} where
  Ends-continue :
      {f : A → M B} {w : World} {r : Outcome A × World}
      → Ends P w r
      → ((a : A) → P a → Offline Q (f a))
      → Ends Q w (continue r.0 f r.1)
  Ends-continue (returns {a} {v} s p) k = Ends-trans s ((k a p).at v)
  Ends-continue (fails s) k = fails s
  Ends-continue (aborts s) k = aborts s
  Ends-continue (faults s) k = faults s

  pub Offline-bind :
      {m : M A} {f : A → M B}
      → Offline P m
      → ((a : A) → P a → Offline Q (f a))
      → Offline Q (m >>= f)
  Offline-bind h k = record { at = λ w. Ends-continue (h.at w) k }

pub Offline-verify : (b : Bool) → Offline (λ _. b ≡ true) (verify b)
Offline-verify true = record { at = λ w. returns same refl }
Offline-verify false = record { at = λ w. aborts same }

pub Offline-in_bounds : (b : Bool) → Offline (λ _. b ≡ true) (in_bounds b)
Offline-in_bounds true = record { at = λ w. returns same refl }
Offline-in_bounds false = record { at = λ w. faults same }

pub length-fit : (n : ℕ) (bs : List ℕ) → length (fit n bs) ≡ n
length-fit n bs = omega (
  arith,
  length-take {0} n (bs ++ replicate n 0),
  length-append {0} bs (replicate n 0),
  length-replicate {A = ℕ} n 0,
)

-- Any value will do.
abbrev pub Any {ℓ} : {A : Type ℓ} → A → Type 0
Any a = Unit

module _ (n : ℕ) where
  malloc-ends : (heap : List Block) (w : World) → w.heap ≡ heap → Ends Any w (malloc n w)
  unfolding malloc
  malloc-ends [] w e = rw e (returns same tt)
  malloc-ends (null ∷ rest) w e = rw e (returns (record { disk = refl; events = refl }) tt)
  malloc-ends (stale bs ∷ rest) w e = rw e (returns (record { disk = refl; events = refl }) tt)

  pub Offline-malloc : Offline Any (malloc n)
  Offline-malloc = record { at = λ w. malloc-ends w.heap w refl }

calloc-ends : (heap : List Block) (w : World) → w.heap ≡ heap → Ends Any w (calloc w)
unfolding calloc
calloc-ends [] w e = rw e (returns same tt)
calloc-ends (null ∷ rest) w e = rw e (returns (record { disk = refl; events = refl }) tt)
calloc-ends (stale bs ∷ rest) w e = rw e (returns (record { disk = refl; events = refl }) tt)

pub Offline-calloc : Offline Any calloc
Offline-calloc = record { at = λ w. calloc-ends w.heap w refl }
