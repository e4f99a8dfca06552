-- ===== src/Settings/Laws.antt =====
-- Laws of the shared settings: a flag overrides what is under it, and nothing panics.
use tuic.Prelude.{
  ℕ, ◌≡◌, ◌≢◌, refl, arith, List, [], ◌∷◌, Option, none, some, Result, ok, err, panicked, ◌>>=◌,
  >>=-succeeds,
}
use tuic.Settings.{parse_below, override}

module _ {E : Type 0} where
  -- A setting is what its flag says, where it is given, and else what it was.
  abbrev pub Chosen : {A : Type 0} → (List ℕ → Result E A) → Option (List ℕ) → A → A → Type 0
  Chosen parse_flag none before v = v ≡ before
  Chosen parse_flag (some s) before v = parse_flag s ≡ ok v

  pub override-Chosen :
      {A : Type 0} (parse_flag : List ℕ → Result E A) (flag : Option (List ℕ)) (before v : A)
      → override parse_flag flag before ≡ ok v
      → Chosen parse_flag flag before v
  unfolding override
  override-Chosen parse_flag none before v h = ground arith
  override-Chosen parse_flag (some s) before v h = h

  pub ok_injective : {A : Type 0} (x y : A) → ◌≡◌ {A = Result E A} (ok x) (ok y) → x ≡ y
  ok_injective x y h = cc

  -- The first step of a chain that succeeds, for a proof that goes on from its value.
  pub step :
      {A B P : Type 0} (next : A → Result E B) (last : B) (first : Result E A)
      → (first >>= next) ≡ ok last
      → ((a : A) → first ≡ ok a → next a ≡ ok last → P)
      → P
  step next last first h k = let (a, e, n) = >>=-succeeds next last first h in k a e n

  -- A chain whose steps do not panic does not.
  pub chain_total :
      {A B : Type 0} (first : Result E A) (next : A → Result E B)
      → first ≢ panicked
      → ((a : A) → next a ≢ panicked)
      → (first >>= next) ≢ panicked
  chain_total (ok a) next f n p = n a p
  chain_total (err e) next f n p = cc
  chain_total panicked next f n p = f refl

  pub parse_below_total : (e : E) (bound : ℕ) (s : List ℕ) → parse_below e bound s ≢ panicked
  unfolding parse_below
  parse_below_total e bound [] p = cc
  parse_below_total e bound (c ∷ []) p = ground arith
  parse_below_total e bound (c ∷ d ∷ cs) p = ground arith

  pub override_total :
      {A : Type 0} (parse_flag : List ℕ → Result E A) (flag : Option (List ℕ)) (before : A)
      → ((s : List ℕ) → parse_flag s ≢ panicked)
      → override parse_flag flag before ≢ panicked
  unfolding override
  override_total parse_flag none before h p = cc
  override_total parse_flag (some s) before h p = h s p
