-- ===== src/Wild/Verdicts.antt =====
-- lib/wildmatch.c: what the verdicts of `dowild` say, and that a star passes them on.
use rsync_wrapper.Prelude.{
  ℕ, ◌≡◌, refl, arith, ◌==◌, Bool, true, false, not, ◌||◌, Bool-cases, inl, inr,
}
use rsync_wrapper.Prelude.{Bytes, List, [], ◌∷◌, ◌++◌, ok, Result}
use rsync_wrapper.Literal.Laws.{joined}
use rsync_wrapper.Wild.{
  Verdict, no, yes, abort_all, abort_to_starstar, settles, passes_no_slash, star_loop,
}
use rsync_wrapper.Wild.Glob.{somewhere, one_then}

-- FALSE: no match here. ABORT_ALL: none here or further on. ABORT_TO_STARSTAR: none here or further on before
-- the next slash.
unfoldable pub Right : Verdict → (Bytes → Bool) → Bytes → Type 0
unfolding somewhere
Right yes m s = m s ≡ true
Right no m s = m s ≡ false
Right abort_all m s = somewhere true m s ≡ false
Right abort_to_starstar m s = somewhere false m s ≡ false

module _ (m : Bytes → Bool) where
  pub somewhere-false : (special : Bool) (s : Bytes) → somewhere special m s ≡ false → m s ≡ false
  unfolding somewhere
  somewhere-false special [] e = e
  somewhere-false special (t ∷ s) e = ground arith

  pub somewhere-less :
      (special : Bool) (s : Bytes) → somewhere true m s ≡ false → somewhere special m s ≡ false
  unfolding somewhere
  somewhere-less special [] e = e
  somewhere-less special (t ∷ s) e = ground (arith, somewhere-less special s)

  -- A star behind a star finds nothing more.
  pub somewhere-all :
      (special : Bool) (s : Bytes)
      → somewhere true m s ≡ false
      → somewhere true (λ r. somewhere special m r) s ≡ false
  unfolding somewhere
  somewhere-all special [] e = e
  somewhere-all special (t ∷ s) e =
      ground (arith, somewhere-less special s, somewhere-all special s)

  somewhere-twice :
      (s : Bytes)
      → somewhere false m s ≡ false
      → somewhere false (λ r. somewhere false m r) s ≡ false
  unfolding somewhere
  somewhere-twice [] e = e
  somewhere-twice (t ∷ s) e = ground (arith, somewhere-twice s)

  pub somewhere_plain :
      (special : Bool) (s : Bytes)
      → not special ≡ true
      → somewhere false m s ≡ false
      → somewhere false (λ r. somewhere special m r) s ≡ false
  somewhere_plain true s n e = absurd (ground arith)
  somewhere_plain false s n e = somewhere-twice s e

  -- One character further.
  pub one_then-all :
      (f : ℕ → Bool) (t : ℕ) (s : Bytes)
      → somewhere true m s ≡ false
      → somewhere true (one_then f m) (t ∷ s) ≡ false
  unfolding somewhere one_then
  one_then-all f t [] e = ground arith
  one_then-all f t (u ∷ s) e = ground (arith, one_then-all f u s)

  one_then-tail :
      (f : ℕ → Bool) (s : Bytes)
      → f 47 ≡ false
      → somewhere false m s ≡ false
      → somewhere false (one_then f m) s ≡ false
  unfolding somewhere one_then
  one_then-tail f [] n e = refl
  one_then-tail f (u ∷ s) n e = ground (arith, somewhere-false false s, one_then-tail f s)

  pub one_then-slash :
      (f : ℕ → Bool) (t : ℕ) (s : Bytes)
      → (t == 47 ≡ false → f 47 ≡ false)
      → somewhere false m s ≡ false
      → somewhere false (one_then f m) (t ∷ s) ≡ false
  unfolding somewhere one_then
  one_then-slash f t s n e = ground (arith, somewhere-false false s, one_then-tail f s)

  pub one_then-never :
      (f : ℕ → Bool) (s : Bytes) → ((u : ℕ) → f u ≡ false) → somewhere true (one_then f m) s ≡ false
  unfolding somewhere one_then
  one_then-never f [] n = refl
  one_then-never f (u ∷ s) n = ground (arith, n u, one_then-never f s n)

module _ (m : Bytes → Bool) (special : Bool) where
  -- Behind a place where the rest does not match.
  Right-behind :
      (v : Verdict) (t : ℕ) (s : Bytes)
      → m (t ∷ s) ≡ false
      → (special || not (t == 47)) ≡ true
      → Right v (λ r. somewhere special m r) s
      → Right v (λ r. somewhere special m r) (t ∷ s)
  unfolding Right somewhere
  Right-behind yes t s n go r = ground arith
  Right-behind no t s n go r = ground arith
  Right-behind abort_all t s n go r =
      ground (arith, somewhere-false (λ r. somewhere special m r) true s)
  Right-behind abort_to_starstar t s n go r =
      ground (arith, somewhere-false (λ r. somewhere special m r) false s)

  Right-settled :
      (v : Verdict) (t : ℕ) (s : Bytes)
      → settles special v ≡ true
      → Right v m (t ∷ s)
      → Right v (λ r. somewhere special m r) (t ∷ s)
  unfolding settles Right
  Right-settled yes t s e r = unfold somewhere in ground arith
  Right-settled no t s e r = absurd (ground arith)
  Right-settled abort_all t s e r = somewhere-all m special (t ∷ s) r
  Right-settled abort_to_starstar t s e r = somewhere_plain m special (t ∷ s) e r

  Right-unsettled :
      (v : Verdict) (s : Bytes) → settles special v ≡ false → Right v m s → m s ≡ false
  unfolding settles Right
  Right-unsettled yes s e r = absurd (ground arith)
  Right-unsettled no s e r = r
  Right-unsettled abort_all s e r = somewhere-false m true s r
  Right-unsettled abort_to_starstar s e r = somewhere-false m false s r

  no_slash-unsettled :
      (v : Verdict) (t : ℕ)
      → settles special v ≡ false
      → passes_no_slash special t v ≡ false
      → (special || not (t == 47)) ≡ true
  unfolding settles passes_no_slash
  no_slash-unsettled yes t e n = ground arith
  no_slash-unsettled no t e n = ground arith
  no_slash-unsettled abort_all t e n = ground arith
  no_slash-unsettled abort_to_starstar t e n = ground arith

  -- At a slash a plain star gives up.
  Right-slash :
      (v : Verdict) (t : ℕ) (s : Bytes)
      → passes_no_slash special t v ≡ true
      → m (t ∷ s) ≡ false
      → Right abort_to_starstar (λ r. somewhere special m r) (t ∷ s)
  unfolding passes_no_slash Right somewhere
  Right-slash yes t s p n = absurd (ground arith)
  Right-slash no t s p n = ground arith
  Right-slash abort_all t s p n = absurd (ground arith)
  Right-slash abort_to_starstar t s p n = absurd (ground arith)

  -- The loop of a star, around a matcher that ends and is right at every place.
  pub star_loop-Right :
      (rest_matches : Bytes → List Bytes → Result Verdict)
      → ((text : Bytes) (a : List Bytes)
          → (v : Verdict) × (rest_matches text a ≡ ok v) × Right v m (text ++ joined a))
      → m [] ≡ false
      → (text : Bytes) (a : List Bytes)
      → (v : Verdict) × (star_loop rest_matches special text a ≡ ok v)
        × Right v (λ r. somewhere special m r) (text ++ joined a)
  unfolding star_loop joined
  star_loop-Right f h n [] [] = (abort_all, refl, unfold Right somewhere in n)
  star_loop-Right f h n [] (s ∷ a) = star_loop-Right f h n s a
  star_loop-Right f h n (t ∷ text) a =
      let (v, run, right) = h (t ∷ text) a in
      let (v', run', right') = star_loop-Right f h n text a in
      elim (Bool-cases (settles special v)) [
        | inl done ↦
            (v, rw (star_loop, run, done) refl, Right-settled v t (text ++ joined a) done right)
        | inr on ↦
            let fails = Right-unsettled v (t ∷ (text ++ joined a)) on right in
            elim (Bool-cases (passes_no_slash special t v)) [
              | inl at ↦ (
                abort_to_starstar,
                rw (star_loop, run, on, at) refl,
                Right-slash v t (text ++ joined a) at fails,
              )
              | inr past ↦ (
                v',
                rw (star_loop, run, on, past) run',
                Right-behind v' t (text ++ joined a) fails (no_slash-unsettled v t on past) right',
              )
            ]
      ]
