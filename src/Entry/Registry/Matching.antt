-- ===== src/Entry/Registry/Matching.antt =====
-- Which definition a context is matched to.
use mathlib.Core.Path.{subst}
use xira.Shared.{
  ℕ, true, false, Option, none, some, List, [], ◌∷◌, ◌++◌, if◌then◌else◌, ltb, ◌≡◌, ◌≤◌, refl, ap,
  sym, ◌∙◌, arith, inl, inr, Bool-cases, All, All-append, All-weaken, append-nil, append_assoc, ◌<◌,
}
use xira.Flow.Run.{InboundContext}
use xira.Entry.Texts.{Texts}
use xira.Entry.Definition.{Definition, matches, match_score}
use xira.Entry.Registry.{Registry, best_of, better, match_context}

module _ (x : Texts) (ctx : InboundContext) where
  abbrev pub IsOther : Definition → Type 0
  IsOther d = matches x d ctx ≡ false

  abbrev pub IsUnder : ℕ → Definition → Type 0
  IsUnder n d = matches x d ctx ≡ true → match_score d < n

  abbrev pub IsAtMost : ℕ → Definition → Type 0
  IsAtMost n d = matches x d ctx ≡ true → match_score d ≤ n

  -- No definition that matches, or one of the best score, and the first such.
  pub data Best : List Definition → Option Definition → Type 0 where
    no_match : {ds : List Definition} → All IsOther ds → Best ds none
    match :
        {ds : List Definition} (before after : List Definition) {best : Definition}
        → ds ≡ before ++ best ∷ after
        → matches x best ctx ≡ true
        → All (IsUnder (match_score best)) before
        → All (IsAtMost (match_score best)) after
        → Best ds (some best)

  -- All that were seen score less than a definition that beats the best of them.
  All-IsUnder :
      (d : Definition) (seen before after : List Definition) (best : Definition)
      → seen ≡ before ++ best ∷ after
      → All (IsUnder (match_score best)) before
      → All (IsAtMost (match_score best)) after
      → match_score best < match_score d
      → All (IsUnder (match_score d)) seen
  All-IsUnder d seen before after best q h k l = subst (All (IsUnder (match_score d))) (sym q) (
      All-append (IsUnder (match_score d)) before (best ∷ after)
        (All-weaken (IsUnder (match_score best)) (IsUnder (match_score d)) before
          (λ e f t. let u : match_score e < match_score best = f t in omega arith) h)
        (
          λ t. l,
          All-weaken (IsAtMost (match_score best)) (IsUnder (match_score d)) after
              (λ e f t. let u : match_score e ≤ match_score best = f t in omega arith) k,
        ))

  better-Best :
      (d : Definition) (seen : List Definition) (b : Option Definition)
      → Best seen b
      → matches x d ctx ≡ true
      → Best (seen ++ d ∷ []) (better d b)
  unfolding better
  better-Best d seen none (no_match h) m =
      match seen [] refl m
        (All-weaken IsOther (IsUnder (match_score d)) seen (λ e f t. grind arith) h) tt
  better-Best d seen (some best) (match before after q n h k) m =
      elim (Bool-cases (ltb (match_score best) (match_score d))) [
        | inl y ↦
            rw y
              (match seen [] refl m (All-IsUnder d seen before after best q h k (ground arith)) tt)
        | inr z ↦ rw z (
            match before (after ++ d ∷ [])
              (ap (λ (l : List Definition). l ++ d ∷ []) q
                ∙ append_assoc before (best ∷ after) (d ∷ []))
              n h
              (All-append (IsAtMost (match_score best)) after (d ∷ []) k (λ t. ground arith, tt)))
      ]

  skipped-Best :
      (d : Definition) (seen : List Definition) (b : Option Definition)
      → Best seen b
      → matches x d ctx ≡ false
      → Best (seen ++ d ∷ []) b
  skipped-Best d seen none (no_match h) m = no_match (All-append IsOther seen (d ∷ []) h (m, tt))
  skipped-Best d seen (some best) (match before after q n h k) m =
      match before (after ++ d ∷ [])
        (ap (λ (l : List Definition). l ++ d ∷ []) q ∙ append_assoc before (best ∷ after) (d ∷ []))
        n h (All-append (IsAtMost (match_score best)) after (d ∷ []) k (λ t. grind arith, tt))

  best_of-Best :
      (seen ds : List Definition) (b : Option Definition)
      → Best seen b
      → Best (seen ++ ds) (best_of x ctx ds b)
  unfolding best_of
  best_of-Best seen [] b h = subst (λ l. Best l b) (sym (append-nil seen)) h
  best_of-Best seen (d ∷ ds) b h =
      let next : Option Definition = if matches x d ctx then better d b else b in
      subst (λ l. Best l (best_of x ctx ds next)) (append_assoc seen (d ∷ []) ds)
        (best_of-Best (seen ++ d ∷ []) ds next (elim (Bool-cases (matches x d ctx)) [
          | inl y ↦ rw y (better-Best d seen b h y)
          | inr n ↦ rw n (skipped-Best d seen b h n)
        ]))

-- The definition that a context is matched to matches it, and has the best score of those that do,
-- as the first such; where there is none, no definition of the registry matches the context.
pub match_context-Best :
    (x : Texts) (ctx : InboundContext) (r : Registry)
    → Best x ctx r.definitions (match_context x ctx r)
unfolding match_context
match_context-Best x ctx r = best_of-Best x ctx [] r.definitions none (no_match tt)
