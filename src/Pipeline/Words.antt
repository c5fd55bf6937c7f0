-- ===== src/Pipeline/Words.antt =====
-- A line's programs, and a program's arguments, are its first words.
use mathlib.Core.List.{append-nil, append_assoc}
use sysopy_all.Base.{
  ℕ, zero, suc, ◌-◌, ◌≡◌, refl, sym, ap, ◌∙◌, Bool, Option, none, some, List, [], ◌∷◌, ◌++◌,
  if◌then◌else◌, Bool-cases, inl, inr, Text, take, strtok, cut_token, arith,
}
use sysopy_all.Pipeline.{without_last, collect, words_of}

module _ {ℓ} {A : Type ℓ} where
  without_last-append : (as' : List A) (a : A) → without_last (as' ++ (a ∷ [])) ≡ as'
  unfolding without_last
  without_last-append [] a = refl
  without_last-append (b ∷ []) a = refl
  without_last-append (b ∷ c ∷ as') a = rw (without_last-append (c ∷ as') a) refl

module _ (delimiter : ℕ → Bool) where
  -- A word that has ended, unless it is empty.
  abbrev add_word : Text → List Text → List Text
  add_word [] ws = ws
  add_word (c ∷ w) ws = (c ∷ w) ∷ ws

  -- The words of a text that goes on from a word's first bytes.
  abbrev pub words_from : Text → Text → List Text
  words_from w [] = add_word w []
  words_from w (c ∷ cs) =
      let rest = words_from [] cs in
      let longer = words_from (w ++ (c ∷ [])) cs in if delimiter c then add_word w rest else longer

  words_from-cut_token :
      (w cs : Text)
      → words_from w cs
        ≡ add_word (w ++ (cut_token delimiter cs).0) (words_from [] (cut_token delimiter cs).1)
  words_from-cut_token w [] = rw (append-nil w) refl
  words_from-cut_token w (c ∷ cs) = elim (Bool-cases (delimiter c)) [
    | inl e ↦ rw (e, append-nil w) refl
    | inr e ↦ rw e (
        words_from-cut_token (w ++ (c ∷ [])) cs
        ∙ rw (append_assoc w (c ∷ []) (cut_token delimiter cs).0) refl)
  ]

  -- The first word and the words after it.
  abbrev first_word : Option (Text × Text) → List Text
  first_word none = []
  first_word (some t) = t.0 ∷ words_from [] t.1

  words_from-strtok : (cs : Text) → words_from [] cs ≡ first_word (strtok delimiter cs)
  unfolding strtok
  words_from-strtok [] = refl
  words_from-strtok (c ∷ cs) = elim (Bool-cases (delimiter c)) [
    | inl e ↦ rw e (words_from-strtok cs)
    | inr e ↦ rw (e, words_from-cut_token (c ∷ []) cs, e) refl
  ]

  -- The loop after one more call of `strtok`.
  abbrev collect_next : ℕ → List Text → Option (Text × Text) → List Text
  collect_next k ws none = ws
  collect_next k ws (some t) = collect delimiter k (ws ++ (t.0 ∷ [])) t.1

  collect-collect_next :
      (k : ℕ) (ws : List Text) (cs : Text)
      → collect delimiter (suc k) ws cs ≡ collect_next k ws (strtok delimiter cs)
  unfolding collect
  collect-collect_next k ws cs = elim (strtok delimiter cs) [ none ↦ refl | some t ↦ refl ]

  collect_next-first_word :
      (k : ℕ) (ws : List Text) (o : Option (Text × Text))
      → collect_next k ws o ≡ ws ++ take k (first_word o)
  unfolding collect
  collect_next-first_word zero ws none = sym (append-nil ws)
  collect_next-first_word zero ws (some t) = without_last-append ws t.0 ∙ sym (append-nil ws)
  collect_next-first_word (suc k) ws none = sym (append-nil ws)
  collect_next-first_word (suc k) ws (some t) =
      collect-collect_next k (ws ++ (t.0 ∷ [])) t.1
      ∙ collect_next-first_word k (ws ++ (t.0 ∷ [])) (strtok delimiter t.1)
      ∙ append_assoc ws (t.0 ∷ []) (take k (first_word (strtok delimiter t.1)))
      ∙ rw (words_from-strtok t.1) refl

  abbrev words_next : ℕ → Option (Text × Text) → List Text
  words_next k none = []
  words_next k (some t) = collect delimiter (suc k) (t.0 ∷ []) t.1

  words_next-first_word :
      (k : ℕ) (o : Option (Text × Text)) → words_next k o ≡ take (suc k) (first_word o)
  words_next-first_word k none = refl
  words_next-first_word k (some t) =
      collect-collect_next k (t.0 ∷ []) t.1
      ∙ collect_next-first_word k (t.0 ∷ []) (strtok delimiter t.1)
      ∙ rw (words_from-strtok t.1) refl

  -- With room for three or more words, of which two places stay free, `words_of` is the first words of
  -- the text, where a word is a longest run of bytes that are no delimiters.
  pub words_of-words_from :
      (limit : ℕ) (cs : Text)
      → words_of delimiter (suc (suc (suc limit))) cs ≡ take (suc limit) (words_from [] cs)
  unfolding words_of
  words_of-words_from limit cs =
      elim (strtok delimiter cs)
        as (λ o.
          elim o [
            | none ↦ []
            | some t ↦ collect delimiter (suc (suc (suc limit)) - 2) (t.0 ∷ []) t.1
          ]
          ≡ words_next limit o) [
            | none ↦ refl
            | some t ↦ ap (λ m. collect delimiter m (t.0 ∷ []) t.1) {y = suc limit} (omega arith)
          ]
      ∙ words_next-first_word limit (strtok delimiter cs)
      ∙ rw (words_from-strtok cs) refl
