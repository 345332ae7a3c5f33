-- ===== src/Sample/Decides.antt =====
-- What a sampler decides: its options, its rates and its rules.
use wlog.Base.{
  ℕ, ◌%◌, ◌≡◌, refl, ap, ◌∙◌, Bool, true, false, some, List, [], ◌∷◌, ◌++◌, String, str_eq,
  if◌then◌else◌, Bool-cases, inl, inr, arith,
}
use wlog.Sample.{
  Percents, RateRule, Keeper, rate, sample_buckets, add, last_or, last_rate, or_whole, rate_for,
  decide, sample,
}

module _ {P : Type 0} (ps : Percents P) where
  last_rate-append :
      (rs : List (RateRule P)) (r : RateRule P) (level : String)
      → last_rate (rs ++ r ∷ []) level
        ≡ (if str_eq r.level level then some r.percent else last_rate rs level)
  unfolding last_rate last_or
  last_rate-append [] r level = refl
  last_rate-append (q ∷ rs) r level =
      rw (last_rate-append rs r level)
        (elim (str_eq r.level level)
          as (λ b.
            last_or (if b then some r.percent else last_rate rs level) level q
            ≡ (if b then some r.percent else last_or (last_rate rs level) level q)) [
              | true ↦ refl
              | false ↦ refl
            ])

  -- A Rate option sets the rate of its level and of no other: the last one of a level wins.
  pub rate_for-add :
      (k : Keeper P) (level : String) (p : P) (asked : String)
      → rate_for ps (add k (rate level p)) asked
        ≡ (if str_eq level asked then p else rate_for ps k asked)
  unfolding rate_for add or_whole
  rate_for-add k level p asked =
      ap (or_whole ps) (last_rate-append k.rates (record { level = level; percent = p }) asked)
      ∙ (elim (str_eq level asked)
          as (λ b.
            or_whole ps (if b then some p else last_rate k.rates asked)
            ≡ (if b then p else or_whole ps (last_rate k.rates asked))) [
              | true ↦ refl
              | false ↦ refl
            ])

  decide-keeps :
      (hash : String → ℕ) (draw : Bool) (p : P) (trace : String)
      → (decide ps hash draw p trace).0 ≡ (
          if ps.is_whole p
          then true
          else if ps.is_nil p
          then false
          else if str_eq trace ""
          then draw
          else ps.under (hash trace % sample_buckets) p)
  unfolding decide
  decide-keeps hash draw p trace = elim (Bool-cases (ps.is_whole p)) [
    | inl whole ↦ rw whole refl
    | inr part ↦ rw part (elim (Bool-cases (ps.is_nil p)) [
      | inl nothing ↦ rw nothing refl
      | inr some_part ↦ rw some_part (elim (Bool-cases (str_eq trace "")) [
        | inl drawn ↦ rw drawn refl
        | inr hashed ↦ rw hashed refl
      ])
    ])
  ]

  -- Of two samplers that hash alike, where for a level the second's rate passes every test that the
  -- first's passes, what the first keeps of the level with a trace id the second keeps too, whatever
  -- is drawn.
  pub sample-monotone :
      (hash : String → ℕ) (draw draw' : Bool) (k k' : Keeper P) (level trace : String)
      → str_eq trace "" ≡ false
      → (ps.is_nil (rate_for ps k' level) ≡ true → ps.is_nil (rate_for ps k level) ≡ true)
      → (ps.is_whole (rate_for ps k level) ≡ true → ps.is_whole (rate_for ps k' level) ≡ true)
      → ((b : ℕ)
          → ps.under b (rate_for ps k level) ≡ true
          → ps.under b (rate_for ps k' level) ≡ true)
      → (sample ps hash draw k level trace).0 ≡ true
      → (sample ps hash draw' k' level trace).0 ≡ true
  unfolding sample
  sample-monotone hash draw draw' k k' level trace given nils wholes unders kept =
      let before = decide-keeps hash draw (rate_for ps k level) trace in
      let after = decide-keeps hash draw' (rate_for ps k' level) trace in
      let step = unders (hash trace % sample_buckets) in
      after ∙ ground (arith, before, given, nils, wholes, step, kept)
