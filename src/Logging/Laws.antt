-- ===== src/Logging/Laws.antt =====
-- What a message of source/llbase/logging.h stands for, and what reaches the file.
use mathlib.Core.Option
use nitek.Base.{
  ℕ, suc, ◌≡◌, ◌≢◌, ◌↔◌, ◌⊎◌, refl, sym, ◌∙◌, ap, inl, inr, arith, true, false, Bool-cases, Option,
  none, some, Option-cases, List, [], ◌∷◌, ◌++◌, map, length, ◌==◌,
}
use nitek.Base.Run.{Result, ok, fault, exits}
use nitek.LfQueue.Writes.{push_all, push_all-append}
use nitek.Logging.{
  LogElement, char, Value, single, text, Logger, percent, push_element, push_text, push_value, logf,
}

-- A message read as characters and, as `none`, places for arguments.
unfoldable pub pieces : List ℕ → List (Option ℕ)
pieces [] = []
pieces (c ∷ []) = elim (c == percent) [ true ↦ none ∷ [] | false ↦ some c ∷ [] ]
pieces (c ∷ d ∷ s) = elim (c == percent) [
  | true ↦ elim (d == percent) [ true ↦ some d ∷ pieces s | false ↦ none ∷ pieces (d ∷ s) ]
  | false ↦ some c ∷ pieces (d ∷ s)
]

unfoldable pub places : List (Option ℕ) → ℕ
places [] = 0
places (some c ∷ ps) = places ps
places (none ∷ ps) = suc (places ps)

-- The characters before the first 0.
unfoldable pub until_zero : List ℕ → List ℕ
until_zero [] = []
until_zero (c ∷ cs) = let rest = until_zero cs in elim (c == 0) [ true ↦ [] | false ↦ c ∷ rest ]

map-none : {A B : Type 0} (f : A → B) (o : Option A) → (Option.map f o ≡ none) ↔ (o ≡ none)
map-none f none = (λ h. refl, λ h. refl)
map-none f (some a) = (λ h. cc, λ h. cc)

module _ {F D : Type 0} where
  unfoldable pub elements_of : Value F D → List (LogElement F D)
  elements_of (single e) = e ∷ []
  elements_of (text cs) = map char (until_zero cs)

  -- Each place filled by the next argument; `none` if the arguments are too few or too many.
  unfoldable pub fill : List (Option ℕ) → List (Value F D) → Option (List (LogElement F D))
  fill [] [] = some []
  fill [] (v ∷ vs) = none
  fill (some c ∷ ps) vs = Option.map (λ es. char c ∷ es) (fill ps vs)
  fill (none ∷ ps) [] = none
  fill (none ∷ ps) (v ∷ vs) = Option.map (λ es. elements_of v ++ es) (fill ps vs)

  abbrev pub push_elements : List (LogElement F D) → Logger F D → Logger F D
  push_elements es l = record l { queue = push_all es l.queue }

  unfoldable pub logged : Option (List (LogElement F D)) → Logger F D → Result (Logger F D)
  logged none l = fault exits
  logged (some es) l = ok (push_elements es l)

  push_text-elements :
      (cs : List ℕ) (l : Logger F D) → push_text cs l ≡ push_elements (map char (until_zero cs)) l
  unfolding push_text until_zero push_element
  push_text-elements [] l = refl
  push_text-elements (c ∷ cs) l = elim (Bool-cases (c == 0)) [
    | inl e ↦ rw (e, push_text, until_zero) refl
    | inr e ↦ rw (e, push_text, until_zero) (push_text-elements cs (push_element (char c) l))
  ]

  push_value-elements :
      (v : Value F D) (l : Logger F D) → push_value v l ≡ push_elements (elements_of v) l
  unfolding push_value elements_of push_element
  push_value-elements (single e) l = refl
  push_value-elements (text cs) l = push_text-elements cs l

  logged-char :
      (c : ℕ) (o : Option (List (LogElement F D))) (l : Logger F D)
      → logged o (push_element (char c) l) ≡ logged (Option.map (λ es. char c ∷ es) o) l
  unfolding logged push_element
  logged-char c none l = refl
  logged-char c (some es) l = refl

  logged-value :
      (v : Value F D) (o : Option (List (LogElement F D))) (l : Logger F D)
      → logged o (push_value v l) ≡ logged (Option.map (λ es. elements_of v ++ es) o) l
  unfolding logged
  logged-value v none l = refl
  logged-value v (some es) l =
      rw (push_value-elements v l)
        (ap (λ q. ok (record l { queue = q })) (sym (push_all-append (elements_of v) es l.queue)))

  -- `logf` queues the elements that the message stands for with its arguments in their places, and
  -- ends the process if they do not fit.
  pub logf_lem :
      (s : List ℕ) (vs : List (Value F D)) (l : Logger F D)
      → logf s vs l ≡ logged (fill (pieces s) vs) l
  unfolding logf pieces fill logged
  logf_lem [] [] l = refl
  logf_lem [] (v ∷ vs) l = refl
  logf_lem (c ∷ []) [] l = elim (Bool-cases (c == percent)) [
    | inl e ↦ rw (e, logf, pieces, fill) refl
    | inr e ↦ rw (e, logf, pieces, fill) (logged-char c (some []) l)
  ]
  logf_lem (c ∷ []) (v ∷ vs) l = elim (Bool-cases (c == percent)) [
    | inl e ↦
        rw (e, logf, pieces, fill) (logf_lem [] vs (push_value v l) ∙ logged-value v (fill [] vs) l)
    | inr e ↦ rw (e, logf, pieces, fill) refl
  ]
  logf_lem (c ∷ d ∷ s) [] l = elim (Bool-cases (c == percent)) [
    | inl e ↦ elim (Bool-cases (d == percent)) [
      | inl f ↦
          rw (e, f, logf, pieces, fill)
            (logf_lem s [] (push_element (char d) l) ∙ logged-char d (fill (pieces s) []) l)
      | inr f ↦ rw (e, f, logf, pieces, fill) refl
    ]
    | inr e ↦
        rw (e, logf, pieces, fill)
          (logf_lem (d ∷ s) [] (push_element (char c) l)
            ∙ logged-char c (fill (pieces (d ∷ s)) []) l)
  ]
  logf_lem (c ∷ d ∷ s) (v ∷ vs) l = elim (Bool-cases (c == percent)) [
    | inl e ↦ elim (Bool-cases (d == percent)) [
      | inl f ↦
          rw (e, f, logf, pieces, fill)
            (logf_lem s (v ∷ vs) (push_element (char d) l)
              ∙ logged-char d (fill (pieces s) (v ∷ vs)) l)
      | inr f ↦
          rw (e, f, logf, pieces, fill)
            (logf_lem (d ∷ s) vs (push_value v l) ∙ logged-value v (fill (pieces (d ∷ s)) vs) l)
    ]
    | inr e ↦
        rw (e, logf, pieces, fill)
          (logf_lem (d ∷ s) (v ∷ vs) (push_element (char c) l)
            ∙ logged-char c (fill (pieces (d ∷ s)) (v ∷ vs)) l)
  ]

  fill-counts :
      (ps : List (Option ℕ)) (vs : List (Value F D)) → (fill ps vs ≡ none) ↔ (places ps ≢ length vs)
  unfolding fill places
  fill-counts [] [] = (λ h. cc, λ h. absurd (h refl))
  fill-counts [] (v ∷ vs) = (λ h e. omega (arith, e), λ h. refl)
  fill-counts (some c ∷ ps) vs =
      let rest = fill-counts ps vs in
      let whole = map-none (λ es. char c ∷ es) (fill ps vs) in
      (λ h. rest.0 (whole.0 h), λ h. whole.1 (rest.1 h))
  fill-counts (none ∷ ps) [] = (λ h e. omega (arith, e), λ h. refl)
  fill-counts (none ∷ ps) (v ∷ vs) =
      let rest = fill-counts ps vs in
      let whole = map-none (λ es. elements_of v ++ es) (fill ps vs) in
      (λ h e. rest.0 (whole.0 h) (omega (arith, e)), λ h. whole.1 (rest.1 λ e. h (ap suc e)))

  -- `logf` ends the process exactly if the arguments are not as many as the message's places for
  -- them, and otherwise returns.
  pub logf-exits :
      (s : List ℕ) (vs : List (Value F D)) (l : Logger F D)
      → ((logf s vs l ≡ fault exits) ↔ (places (pieces s) ≢ length vs))
        × ((logf s vs l ≡ fault exits) ⊎ ((l' : Logger F D) × (logf s vs l ≡ ok l')))
  unfolding logged
  logf-exits s vs l =
      let same = logf_lem s vs l in
      let counts = fill-counts (pieces s) vs in
      elim (Option-cases (fill (pieces s) vs)) [
        | inl e ↦
            let ends : logf s vs l ≡ fault exits = same ∙ ap (λ o. logged o l) e in
            ((λ h. counts.0 e, λ h. ends), inl ends)
        | inr (es, e) ↦
            let returns : logf s vs l ≡ ok (push_elements es l) = same ∙ ap (λ o. logged o l) e in
            (
              (
                λ h. absurd (ground (arith, h, returns)),
                λ h. absurd (ground (arith, counts.1 h, e)),
              ),
              inr (_, returns),
            )
      ]
