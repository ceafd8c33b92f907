-- ===== src/Transform/Pipelines.antt =====
-- How pipelines compose, and that a template's text is read to its end.
use webhook_relay_service.Transform.Template.{
  match_template, substitute, substitute_from, until_close,
}
use webhook_relay_service.Transform.Engine.{apply_from, apply_step}
use webhook_relay_service.Transform.{Tools, piped, ◌>>=◌, Piped, raises}
use webhook_relay_service.Prelude.{
  List, Option-cases, Text, [], any, arith, false, inl, inr, length, refl, some, ℕ, ◌++◌, ◌+◌, ◌<◌,
  ◌==◌, ◌∷◌, ◌≡◌, ◌≤◌, none, suc, zero, ap,
}
use webhook_relay_service.Model.Json.{Fields, Value}

module _ (tools : Tools) where
  append_then :
      (m : Piped Value) (idx n : ℕ) (first second : List Fields)
      → idx + length first ≡ n
      → ((current : Value)
          → apply_from tools idx (first ++ second) current ≡ (
              apply_from tools idx first current >>= λ v.
              apply_from tools (idx + length first) second v))
      → (m >>= λ next. apply_from tools idx (first ++ second) next)
        ≡ ((m >>= λ next. apply_from tools idx first next) >>= λ v. apply_from tools n second v)
  append_then (raises e) idx n first second same h = refl
  append_then (piped current) idx n first second same h = rw (← same) (h current)

  -- A pipeline in two parts runs the first and then, from where that ends, the second: an error of
  -- the first part is the error of the whole, and the second part counts its places on.
  pub apply_from-append :
      (first second : List Fields) (idx : ℕ) (payload : Value)
      → apply_from tools idx (first ++ second) payload ≡ (
          apply_from tools idx first payload >>= λ current.
          apply_from tools (idx + length first) second current)
  unfolding apply_from
  apply_from-append [] second idx payload =
      ap (λ n. apply_from tools n second payload) (omega arith)
  apply_from-append (step ∷ first) second idx payload =
      append_then (apply_step tools idx step payload) (idx + 1) (idx + length (step ∷ first)) first
        second (omega arith) (apply_from-append first second (idx + 1))

  until_close-shorter :
      (t expr rest : Text) → until_close tools t ≡ some (expr, rest) → length rest < length t
  until_close-shorter [] expr rest h = cc
  until_close-shorter (c ∷ []) expr rest h = cc
  until_close-shorter (c ∷ d ∷ t) expr rest h = elim (Option-cases (until_close tools (d ∷ t))) [
    | inl no_close ↦ ground (arith, no_close, h)
    | inr ((e, r), found) ↦
        (let shorter = until_close-shorter (d ∷ t) e r found in ground (arith, found, h, shorter))
  ]

  match_template-shorter :
      (t expr rest : Text) → match_template tools t ≡ some (expr, rest) → length rest < length t
  unfolding match_template
  match_template-shorter [] expr rest h = cc
  match_template-shorter (c ∷ []) expr rest h = cc
  match_template-shorter (c ∷ d ∷ []) expr rest h = ground (arith, h)
  match_template-shorter (c ∷ d ∷ e ∷ t) expr rest h = elim (Option-cases (until_close tools t)) [
    | inl no_close ↦ ground (arith, no_close, h)
    | inr ((x, r), found) ↦
        (let shorter = until_close-shorter t x r found in ground (arith, found, h, shorter))
  ]

  same_fuel :
      (f g : ℕ) (payload : Value) (t : Text)
      → length t ≤ f
      → length t ≤ g
      → substitute_from tools f payload t ≡ substitute_from tools g payload t
  unfolding substitute_from
  same_fuel zero zero payload [] hf hg = refl
  same_fuel zero (suc g) payload [] hf hg = refl
  same_fuel (suc f) zero payload [] hf hg = refl
  same_fuel (suc f) (suc g) payload [] hf hg = refl
  same_fuel zero g payload (c ∷ t) hf hg = elim hf [ ]
  same_fuel (suc f) zero payload (c ∷ t) hf hg = elim hg [ ]
  same_fuel (suc f) (suc g) payload (c ∷ t) hf hg =
      elim (Option-cases (match_template tools (c ∷ t))) [
        | inl no_match ↦
            rw (no_match, substitute_from)
              (rw (same_fuel f g payload t (omega (arith, hf)) (omega (arith, hg))) refl)
        | inr ((e, rest), found) ↦
            let shorter = match_template-shorter (c ∷ t) e rest found in
            rw (found, substitute_from)
              (rw
                (same_fuel f g payload rest (omega (arith, shorter, hf))
                  (omega (arith, shorter, hg)))
                refl)
      ]

  -- The text is read to its end: more fuel than its length changes nothing.
  pub substitute_from-enough :
      (fuel : ℕ) (payload : Value) (t : Text)
      → length t ≤ fuel
      → substitute_from tools fuel payload t ≡ substitute tools payload t
  unfolding substitute
  substitute_from-enough fuel payload t h = same_fuel fuel (length t) payload t h (omega arith)

  no_brace-no_match : (c : ℕ) (t : Text) → (c == b'{') ≡ false → match_template tools (c ∷ t) ≡ none
  unfolding match_template
  no_brace-no_match c [] h = refl
  no_brace-no_match c (d ∷ t) h = simp h refl

  -- A text without an opening brace is returned as it is.
  pub plain-substitute :
      (payload : Value) (t : Text)
      → any (λ c. c == b'{') t ≡ false
      → substitute tools payload t ≡ piped t
  unfolding substitute substitute_from
  plain-substitute payload [] h = refl
  plain-substitute payload (c ∷ t) h =
      let rest : any (λ c. c == b'{') t ≡ false = ground (arith, h) in
      let other : (c == b'{') ≡ false = ground (arith, h) in
      let ih : substitute_from tools (length t) payload t ≡ piped t =
        plain-substitute payload t rest in
      rw (no_brace-no_match c t other, substitute_from) (rw ih refl)
