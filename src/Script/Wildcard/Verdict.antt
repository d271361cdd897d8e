-- ===== src/Script/Wildcard/Verdict.antt =====
-- Tests that may fail, on a text and on its ends, and the loop at a star of `wildcardMatch`.
use lld_or1k.Base.{
  ℕ, ◌≡◌, refl, ◌∙◌, ap, subst, ◌⊎◌, inl, inr, Bool, true, false, Option, none, some, [], ◌∷◌, ◌++◌,
  address_eq,
}
use lld_or1k.Base.Text.{Text}
use lld_or1k.Script.Wildcard.{star_loop}

-- Some end of the text has the property.
pub data SomeEnd (P : Text → Type 0) : Text → Type 0 where
  at_once : {s : Text} → P s → SomeEnd P s
  later : (c : ℕ) {s : Text} → SomeEnd P s → SomeEnd P (c ∷ s)

-- The verdict of a test on a text: it is right where there is one, and a run without one fails only
-- where no end of the text has the property.
pub data Verdict (P : Text → Type 0) (s : Text) (o : Option Bool) : Type 0 where
  says_yes : o ≡ some true → P s → Verdict P s o
  says_no : o ≡ some false → (P s → ⊥) → Verdict P s o
  fails : o ≡ none → (SomeEnd P s → ⊥) → Verdict P s o

-- A test that decides the property, on every text.
abbrev pub Decides : (Text → Option Bool) → (Text → Type 0) → Type 0
Decides f P = (s : Text) → Verdict P s (f s)

SomeEnd-nil : {P : Text → Type 0} {s : Text} → SomeEnd P s → s ≡ [] → P []
SomeEnd-nil {P} (at_once h) same = subst P same h
SomeEnd-nil (later c h) same = cc same

SomeEnd-cons : {P : Text → Type 0} {c : ℕ} {s : Text} → SomeEnd P (c ∷ s) → P (c ∷ s) ⊎ SomeEnd P s
SomeEnd-cons (at_once h) = inl h
SomeEnd-cons (later c h) = inr h

pub SomeEnd-append : {P : Text → Type 0} (t rest : Text) → P rest → SomeEnd P (t ++ rest)
SomeEnd-append [] rest h = at_once h
SomeEnd-append (c ∷ t) rest h = later c (SomeEnd-append t rest h)

pub append-SomeEnd :
    {P : Text → Type 0} {s : Text} → SomeEnd P s → (t rest : Text) × (s ≡ t ++ rest) × P rest
append-SomeEnd (at_once {s} h) = ([], s, refl, h)
append-SomeEnd (later c h) =
    let (t, rest, same, holds) = append-SomeEnd h in
    (c ∷ t, rest, ap (λ (l : Text). c ∷ l) same, holds)

SomeEnd-join : {P : Text → Type 0} {s : Text} → SomeEnd (SomeEnd P) s → SomeEnd P s
SomeEnd-join (at_once h) = h
SomeEnd-join (later c h) = later c (SomeEnd-join h)

not_here : {A B : Type 0} → (A → ⊥) → (B → ⊥) → A ⊎ B → ⊥
not_here no_first no_second (inl a) = no_first a
not_here no_first no_second (inr b) = no_second b

pub star_loop-Decides :
    (f : Text → Option Bool) (P : Text → Type 0) → Decides f P → Decides (star_loop f) (SomeEnd P)
unfolding star_loop
star_loop-Decides f P h [] = elim (h []) [
  | says_yes same holds ↦ says_yes (rw (same, star_loop)) (at_once holds)
  | says_no same refuted ↦
      fails (rw (same, star_loop)) (λ found. refuted (SomeEnd-nil (SomeEnd-join found) refl))
  | fails same refuted ↦ fails (rw (same, star_loop)) (λ found. refuted (SomeEnd-join found))
]
star_loop-Decides f P h (c ∷ s) = elim (h (c ∷ s)) [
  | says_yes same holds ↦ says_yes (rw (same, star_loop)) (at_once holds)
  | fails same refuted ↦ fails (rw (same, star_loop)) (λ found. refuted (SomeEnd-join found))
  | says_no same refuted ↦ elim (star_loop-Decides f P h s) [
    | says_yes same' found ↦ says_yes (rw (same, star_loop) same') (later c found)
    | says_no same' none_there ↦
        says_no (rw (same, star_loop) same')
          (λ found. not_here refuted none_there (SomeEnd-cons found))
    | fails same' none_there ↦ fails (rw (same, star_loop) same') (λ found.
        not_here refuted (λ there. none_there (at_once there)) (SomeEnd-cons (SomeEnd-join found)))
  ]
]

abbrev pub tail : Text → Text
tail [] = []
tail (c ∷ s) = s

tail-SomeEnd : {P : Text → Type 0} (s : Text) → SomeEnd P (tail s) → SomeEnd P s
tail-SomeEnd [] h = h
tail-SomeEnd (c ∷ s) h = later c h

pub SomeEnd-tail :
    {P Q : Text → Type 0}
    → ((c : ℕ) (s : Text) → Q (c ∷ s) → SomeEnd P s)
    → (Q [] → ⊥)
    → (s : Text) → SomeEnd Q s
    → SomeEnd P (tail s)
SomeEnd-tail step refuted [] found = absurd (refuted (SomeEnd-nil found refl))
SomeEnd-tail step refuted (c ∷ s) found = elim (SomeEnd-cons found) [
  | inl here ↦ step c s here
  | inr there ↦ tail-SomeEnd s (SomeEnd-tail step refuted s there)
]

-- A verdict on the text behind a character, for the text from that character on.
pub moved :
    {o o' : Option Bool} {P Q : Text → Type 0} {c : ℕ} {s : Text}
    → o ≡ o'
    → Verdict P s o'
    → (P s → Q (c ∷ s))
    → (Q (c ∷ s) → P s)
    → (SomeEnd Q (c ∷ s) → SomeEnd P s)
    → Verdict Q (c ∷ s) o
moved same (says_yes eq holds) to from back = says_yes (same ∙ eq) (to holds)
moved same (says_no eq refuted) to from back = says_no (same ∙ eq) (λ q. refuted (from q))
moved same (fails eq refuted) to from back = fails (same ∙ eq) (λ found. refuted (back found))
