-- ===== src/Registration/Rollback.antt =====
-- Registration is all or nothing, but for unchecked collectors, which cannot be unregistered.
use prometheus_exporter_fram.Prelude.{
  or_else, Bool, true, false, not, ◌&&◌, ◌||◌, Option, none, some, List, [], ◌∷◌, ◌++◌,
  append_assoc, append-nil, Result-cases, ◌≡◌, refl, ap, Eq, ◌==◌, ==_iff, Result, ok, err, map,
  any, arith, if◌then◌else◌, inl, inr,
}
use prometheus_exporter_fram.Registration.{
  Registry, roll_back, register_loop, error_of, register_collectors, start_all,
  register_and_start_collectors,
}

abbrev pub elem : {C : Type 0} ⦃e : Eq C⦄ → C → List C → Bool
elem d cs = any (λ c. c == d) cs

-- The collectors of a list that are not `nil`, in order.
unfoldable pub present : {C : Type 0} → List (Option C) → List C
present [] = []
present (none ∷ cs) = present cs
present (some c ∷ cs) = c ∷ present cs

module _ {C : Type 0} ⦃e : Eq C⦄ where
  elem-snoc : (d c : C) (cs : List C) → elem d (cs ++ c ∷ []) ≡ (elem d cs || c == d)
  elem-snoc d c [] = ground arith
  elem-snoc d c (x ∷ cs) = ground (arith, elem-snoc d c cs)

module _ {R C E : Type 0} ⦃e : Eq C⦄ (reg : Registry R C E) where
  -- Unregistering `c` removes `d`.
  abbrev drops : C → C → Bool
  drops c d = reg.checked c && reg.checked d && reg.equal c d

  holds-roll_back :
      (r : R) (cs : List C) (d : C)
      → reg.holds (roll_back reg r cs) d
        ≡ (if any (λ c. drops c d) cs then false else reg.holds r d)
  unfolding roll_back
  holds-roll_back r [] d = refl
  holds-roll_back r (c ∷ cs) d =
      ground (arith, holds-roll_back (reg.unregister r c) cs d, reg.holds-unregister r c d)

  -- Where the loop stands: `r` holds what `r₀` held and what was registered since, and `r₀` held
  -- nothing that unregistering those removes.
  record Since (r₀ r : R) (registered : List C) : Type 0 where
    holds : (d : C) → reg.holds r d ≡ (elem d registered || reg.holds r₀ d)
    fresh : (d : C) → any (λ c. drops c d) registered ≡ true → reg.holds r₀ d ≡ false

  drops-snoc :
      (d c : C) (cs : List C)
      → any (λ x. drops x d) (cs ++ c ∷ []) ≡ (any (λ x. drops x d) cs || drops c d)
  drops-snoc d c [] = ground arith
  drops-snoc d c (x ∷ cs) = ground (arith, drops-snoc d c cs)

  Since-register :
      (r₀ r r' : R) (registered : List C) (c : C)
      → Since r₀ r registered
      → reg.register r c ≡ ok r'
      → Since r₀ r' (registered ++ c ∷ [])
  Since-register r₀ r r' registered c s p = record {
    holds = λ d. ground (arith, elem-snoc d c registered, reg.holds-register r r' c d p, s.holds d);
    fresh = λ d m.
        ground
          (arith, drops-snoc d c registered, reg.register_new r r' c d p, s.holds d, s.fresh d);
  }

  -- what is left of collectors that were registered and unregistered again
  abbrev pub Undone : R → List C → R → Type 0
  Undone r₀ cs r = (d : C) → reg.holds r d ≡ ((not (reg.checked d) && elem d cs) || reg.holds r₀ d)

  -- How a failure ends: with those before a collector of the list registered, `Register` refused that
  -- one, with the error that is returned; and those before it are undone.
  abbrev pub Failed : R → List C → E → R → Type 0
  Failed r₀ all x r =
      (before : List C) × (c : C) × (after : List C) × (r' : R) × (all ≡ before ++ c ∷ after)
      × ((d : C) → reg.holds r' d ≡ (elem d before || reg.holds r₀ d))
      × (reg.register r' c ≡ err x)
      × Undone r₀ before r

  -- How the loop ends.
  abbrev Ends : R → List C → R × Result E (List C) → Type 0
  Ends r₀ all (r, ok registered) = (registered ≡ all) × Since r₀ r all
  Ends r₀ all (r, err x) = Failed r₀ all x r

  drops-elem :
      (d : C) (cs : List C) → (reg.checked d && elem d cs) ≡ true → any (λ c. drops c d) cs ≡ true
  drops-elem d [] h = ground arith
  drops-elem d (c ∷ cs) h = ground (arith, drops-elem d cs, (==_iff c d).0, reg.equal_refl d)

  drops-checked : (d : C) (cs : List C) → any (λ c. drops c d) cs ≡ true → reg.checked d ≡ true
  drops-checked d [] h = ground arith
  drops-checked d (c ∷ cs) h = ground (arith, drops-checked d cs)

  roll_back-Since :
      (r₀ r : R) (registered : List C)
      → Since r₀ r registered
      → Undone r₀ registered (roll_back reg r registered)
  roll_back-Since r₀ r registered s d = ground (
    arith,
    holds-roll_back r registered d,
    s.holds d,
    s.fresh d,
    drops-elem d registered,
    drops-checked d registered,
  )

  register_loop-Ends :
      (r₀ r : R) (registered : List C) (cs : List (Option C))
      → Since r₀ r registered
      → Ends r₀ (registered ++ present cs) (register_loop reg r registered cs)
  unfolding register_loop present
  register_loop-Ends r₀ r registered [] s = rw append-nil (refl, s)
  register_loop-Ends r₀ r registered (none ∷ cs) s = register_loop-Ends r₀ r registered cs s
  register_loop-Ends r₀ r registered (some c ∷ cs) s = elim (Result-cases (reg.register r c)) [
    | inl (r', p) ↦
        let ih =
          register_loop-Ends r₀ r' (registered ++ c ∷ []) cs
            (Since-register r₀ r r' registered c s p) in
        rw (p, register_loop) (rw append_assoc at ih)
    | inr (x, p) ↦
        rw (p, register_loop)
          (registered, c, present cs, r, refl, s.holds, p, roll_back-Since r₀ r registered s)
  ]

  loop-Ends : (r : R) (cs : List (Option C)) → Ends r (present cs) (register_loop reg r [] cs)
  loop-Ends r cs =
      register_loop-Ends r r [] cs (record { holds = λ d. refl; fresh = λ d m. absurd (cc) })

  -- What a registration promises: on success the registry holds what it held and every collector
  -- of the list that is not `nil`; on an error it holds what it held and, of the collectors before
  -- the one that was refused, the unchecked ones.
  abbrev pub AllOrNone : R → List C → R × Option E → Type 0
  AllOrNone r₀ all (r, none) = (d : C) → reg.holds r d ≡ (elem d all || reg.holds r₀ d)
  AllOrNone r₀ all (r, some x) = Failed r₀ all x r

  error_of-AllOrNone :
      (r : R) (all : List C) (p : R × Result E (List C))
      → Ends r all p
      → AllOrNone r all (error_of reg p)
  error_of-AllOrNone r all (r', ok registered) h = h.1.holds
  error_of-AllOrNone r all (r', err x) h = h

  -- `RegisterCollectors` registers every collector of the list that is not `nil`, or returns an
  -- error. Then it is the one with which `Register` has refused one of them, and of those before it
  -- the registry keeps only the unchecked ones, which cannot be unregistered; otherwise it holds what
  -- it held.
  pub register_collectors-AllOrNone :
      (r : R) (cs : List (Option C)) → AllOrNone r (present cs) (register_collectors reg r cs)
  unfolding register_collectors
  register_collectors-AllOrNone r cs =
      error_of-AllOrNone r (present cs) (register_loop reg r [] cs) (loop-Ends r cs)

  -- What the starting variant promises besides: it starts the registered collectors, each once and
  -- in order, with the given context or the background one, and none of them on an error.
  abbrev pub Starts : {Ctx : Type 0} → R → List C → Ctx → R × List (C × Ctx) × Option E → Type 0
  Starts r₀ all ctx (r, started, none) =
      (started ≡ map (λ c. (c, ctx)) all)
      × ((d : C) → reg.holds r d ≡ (elem d all || reg.holds r₀ d))
  Starts r₀ all ctx (r, started, some x) = (started ≡ []) × Failed r₀ all x r

  start_all-Starts :
      {Ctx : Type 0} (background : Ctx) (ctx : Option Ctx) (r : R) (all : List C)
      (p : R × Result E (List C))
      → Ends r all p
      → Starts r all (or_else ctx background) (start_all reg background ctx p)
  start_all-Starts background none r all (r', ok registered) h =
      (ap (map (λ c. (c, background))) h.0, h.1.holds)
  start_all-Starts background (some x) r all (r', ok registered) h =
      (ap (map (λ c. (c, x))) h.0, h.1.holds)
  start_all-Starts background none r all (r', err x) h = (refl, h)
  start_all-Starts background (some y) r all (r', err x) h = (refl, h)

  -- `RegisterAndStartCollectors`: on success the registry holds what it held and every collector of
  -- the list that is not `nil`, and exactly those are started, in order, with the given context or,
  -- if that is `nil`, the background one. An error is the one with which `Register` has refused one
  -- of them, and then none is started; of those before it the registry keeps only the unchecked ones,
  -- which cannot be unregistered, and otherwise it holds what it held.
  pub register_and_start-Starts :
      {Ctx : Type 0} (background : Ctx) (ctx : Option Ctx) (r : R) (cs : List (Option C))
      → Starts r
          (present cs)
          (or_else ctx background)
          (register_and_start_collectors reg background ctx r cs)
  unfolding register_and_start_collectors
  register_and_start-Starts background ctx r cs =
      start_all-Starts background ctx r (present cs) (register_loop reg r [] cs) (loop-Ends r cs)
