-- ===== src/Pipeline/Chain.antt =====
-- The two chains of pointers between filters as one list, and what splicing does to it.
use deprecated_tcode.Common.{
  ℕ, ◌≡◌, ◌≢◌, refl, sym, ◌∙◌, ap, true, false, List, [], ◌∷◌, ◌++◌, arith, ◌||◌, ◌⊎◌, inl, inr,
}
use deprecated_tcode.Common.Maps.{has, Distinct}
use deprecated_tcode.Pipeline.{Filter, Pipeline}

-- From `head` the inbound pointers lead through the list and end at nullptr, and the outbound ones
-- lead back, the first filter's to `outer`. Every filter points to the pipeline.
abbrev pub IsLinked : (ℕ → Filter) → (outer head : ℕ) → List ℕ → Type 0
IsLinked f outer head [] = head ≡ 0
IsLinked f outer head (x ∷ xs) =
    (head ≡ x)
    × (x ≢ 0)
    × ((f x).outbound ≡ outer)
    × ((f x).pipeline ≡ true)
    × IsLinked f x (f x).inbound xs

-- The filters of a pipeline, in inbound order.
pub record IsChain (p : Pipeline) (xs : List ℕ) : Type 0 where
  pub linked : IsLinked p.filters 0 p.inbound xs
  pub distinct : Distinct xs

-- `g` is `f` with the filter `x` spliced in behind `y`.
pub record Inserted (f g : ℕ → Filter) (y x : ℕ) : Type 0 where
  pub new : g x ≡ record { pipeline = true; inbound = (f y).inbound; outbound = y }
  pub before : g y ≡ record (f y) { inbound = x }
  pub after : (f y).inbound ≢ 0 → g (f y).inbound ≡ record (f (f y).inbound) { outbound = x }
  pub rest : (z : ℕ) → z ≢ 0 → z ≢ x → z ≢ y → z ≢ (f y).inbound → g z ≡ f z

-- `g` is `f` with the filter `x` behind `y` taken out of the chain.
pub record Removed (f g : ℕ → Filter) (y x : ℕ) : Type 0 where
  pub before : g y ≡ record (f y) { inbound = (f x).inbound }
  pub after : (f x).inbound ≢ 0 → g (f x).inbound ≡ record (f (f x).inbound) { outbound = y }
  pub rest : (z : ℕ) → z ≢ 0 → z ≢ y → z ≢ (f x).inbound → g z ≡ f z

true_ne : true ≢ false
true_ne = λ e. ground (arith, e)

pub has_ne : {y z : ℕ} (ys : List ℕ) → has y ys ≡ false → has z ys ≡ true → z ≢ y
has_ne ys out inside e = absurd (true_ne (sym inside ∙ ap (λ w. has w ys) e ∙ out))

pub far : {w n : ℕ} (ys : List ℕ) → w ≢ 0 → has w ys ≡ false → (n ≡ 0) ⊎ (has n ys ≡ true) → w ≢ n
far ys nz out (inl z) e = nz (e ∙ z)
far ys nz out (inr h) e = has_ne ys out h (sym e)

pub has-append : (z : ℕ) (xs ys : List ℕ) → has z (xs ++ ys) ≡ (has z xs || has z ys)
has-append z [] ys = refl
has-append z (x ∷ xs) ys = ground (arith, has-append z xs ys)

pub IsLinked-frame :
    (f g : ℕ → Filter) (outer head : ℕ) (xs : List ℕ)
    → ((z : ℕ) → z ≢ 0 → has z xs ≡ true → g z ≡ f z)
    → IsLinked f outer head xs
    → IsLinked g outer head xs
IsLinked-frame f g outer head [] same l = l
IsLinked-frame f g outer head (x ∷ xs) same (at, ne, out, here, l) =
    let e : g x ≡ f x = same x ne (ground arith) in
    (
      at,
      ne,
      ap (λ n. n.outbound) e ∙ out,
      ap (λ n. n.pipeline) e ∙ here,
      rw e (IsLinked-frame f g x _ xs (λ z nz h. same z nz (ground arith)) l),
    )

-- The first filter's outbound pointer is set to `x`.
retarget :
    (f g : ℕ → Filter) (outer head x : ℕ) (xs : List ℕ)
    → Distinct xs
    → (head ≢ 0 → g head ≡ record (f head) { outbound = x })
    → ((z : ℕ) → z ≢ 0 → has z xs ≡ true → z ≢ head → g z ≡ f z)
    → IsLinked f outer head xs
    → IsLinked g x head xs
retarget f g outer head x [] d first same l = l
retarget f g outer head x (y ∷ ys) d first same (at, ne, out, here, l) =
    let e : g y ≡ record (f y) { outbound = x } =
      sym (ap g at) ∙ first (λ z. ne (sym at ∙ z)) ∙ ap (λ z. record (f z) { outbound = x }) at in
    (
      at,
      ne,
      ap (λ n. n.outbound) e,
      ap (λ n. n.pipeline) e ∙ here,
      rw e (
          IsLinked-frame f g y _ ys
            (λ z nz h. same z nz (ground arith) (λ zh. has_ne ys d.0 h (zh ∙ at))) l),
    )

-- What stands behind a filter of a chain.
pub next_of :
    (f : ℕ → Filter) (outer head y : ℕ) (xs ys : List ℕ)
    → IsLinked f outer head (xs ++ y ∷ ys)
    → ((f y).inbound ≡ 0) ⊎ (has (f y).inbound ys ≡ true)
next_of f outer head y [] [] (at, ne, out, here, l) = inl l
next_of f outer head y [] (z ∷ zs) (at, ne, out, here, l) = inr (ground (arith, l.0))
next_of f outer head y (x ∷ xs) ys (at, ne, out, here, l) = next_of f x _ y xs ys l

module _ (f g : ℕ → Filter) (y x : ℕ) (i : Inserted f g y x) (ne : x ≢ 0) where
  -- Splicing in behind `y` adds to the list there.
  pub Inserted-IsLinked :
      (outer head : ℕ) (xs ys : List ℕ)
      → Distinct (xs ++ y ∷ ys)
      → has x (xs ++ y ∷ ys) ≡ false
      → ((f y).inbound ≡ 0) ⊎ (has (f y).inbound ys ≡ true)
      → IsLinked f outer head (xs ++ y ∷ ys)
      → IsLinked g outer head (xs ++ y ∷ x ∷ ys)
  Inserted-IsLinked outer head [] ys d fresh next (at, nz, out, here, l) = (
    at,
    nz,
    ap (λ n. n.outbound) i.before ∙ out,
    ap (λ n. n.pipeline) i.before ∙ here,
    (
      ap (λ n. n.inbound) i.before,
      ne,
      ap (λ n. n.outbound) i.new,
      ap (λ n. n.pipeline) i.new,
      rw i.new (
          retarget f g y (f y).inbound x ys d.1 i.after
            (λ z zz h far. i.rest z zz (ground (arith, h)) (has_ne ys d.0 h) far) l),
    ),
  )
  Inserted-IsLinked outer head (w ∷ ws) ys d fresh next (at, nz, out, here, l) =
      let apart : has w (ws ++ y ∷ ys) ≡ (has w ws || has w (y ∷ ys)) = has-append w ws (y ∷ ys) in
      let e : g w ≡ f w = i.rest w nz (ground arith) (ground (arith, d.0, apart)) (
        far (ws ++ y ∷ ys) nz d.0 (elim next [
          | inl z ↦ inl z
          | inr h ↦ inr (ground (arith, h, has-append (f y).inbound ws (y ∷ ys)))
        ])) in
      (
        at,
        nz,
        ap (λ n. n.outbound) e ∙ out,
        ap (λ n. n.pipeline) e ∙ here,
        rw e (Inserted-IsLinked w _ ws ys d.1 (ground (arith, fresh)) next l),
      )

module _ (f g : ℕ → Filter) (y x : ℕ) (i : Removed f g y x) where
  -- Taking out what stands behind `y` takes it from the list.
  pub Removed-IsLinked :
      (outer head : ℕ) (xs ys : List ℕ)
      → Distinct (xs ++ y ∷ x ∷ ys)
      → ((f x).inbound ≡ 0) ⊎ (has (f x).inbound ys ≡ true)
      → IsLinked f outer head (xs ++ y ∷ x ∷ ys)
      → IsLinked g outer head (xs ++ y ∷ ys)
  Removed-IsLinked outer head [] ys d next (at, nz, out, here, (at', nx, out', here', l)) = (
    at,
    nz,
    ap (λ n. n.outbound) i.before ∙ out,
    ap (λ n. n.pipeline) i.before ∙ here,
    rw i.before (
        retarget f g x (f x).inbound y ys d.1.1 i.after
          (λ z zz h apart. i.rest z zz (has_ne ys (ground (arith, d.0)) h) apart) l),
  )
  Removed-IsLinked outer head (w ∷ ws) ys d next (at, nz, out, here, l) =
      let apart : has w (ws ++ y ∷ x ∷ ys) ≡ (has w ws || has w (y ∷ x ∷ ys)) =
        has-append w ws (y ∷ x ∷ ys) in
      let e : g w ≡ f w = i.rest w nz (ground (arith, d.0, apart)) (
        far (ws ++ y ∷ x ∷ ys) nz d.0 (elim next [
          | inl z ↦ inl z
          | inr h ↦ inr (ground (arith, h, has-append (f x).inbound ws (y ∷ x ∷ ys)))
        ])) in
      (
        at,
        nz,
        ap (λ n. n.outbound) e ∙ out,
        ap (λ n. n.pipeline) e ∙ here,
        rw e (Removed-IsLinked w _ ws ys d.1 next l),
      )
