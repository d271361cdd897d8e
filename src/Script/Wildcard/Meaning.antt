-- ===== src/Script/Wildcard/Meaning.antt =====
-- What a pattern without brackets means, and that `wildcardMatch` decides it.
use lld_or1k.Base.{
  ℕ, ◌≡◌, ◌≢◌, refl, sym, ◌∙◌, subst, ◌↔◌, inl, inr, Bool, true, false, Option, some, [], ◌∷◌, ◌++◌,
  nat_eq, nat_eq_iff, arith, Bool-cases, contains, address_eq,
}
use lld_or1k.Base.Text.{Text}
use lld_or1k.Script.Wildcard.{star_loop, wildcard_match}
use lld_or1k.Script.Wildcard.Verdict.{
  SomeEnd, Verdict, Decides, SomeEnd-append, append-SomeEnd, star_loop-Decides, tail, SomeEnd-tail,
  moved, at_once, says_yes, says_no, fails,
}

-- A character that stands for itself.
abbrev pub IsOrdinary : ℕ → Type 0
IsOrdinary p = (p ≢ b'*') × (p ≢ b'?') × (p ≢ b'[') × (p ≢ b'\\')

-- The names that a pattern stands for. A star takes one character at least.
pub data Matches : Text → Text → Type 0 where
  ends : Matches [] []
  ordinary : (c : ℕ) {ps s : Text} → IsOrdinary c → Matches ps s → Matches (c ∷ ps) (c ∷ s)
  escaped : (c : ℕ) {ps s : Text} → Matches ps s → Matches (b'\\' ∷ c ∷ ps) (c ∷ s)
  any_one : (c : ℕ) {ps s : Text} → Matches ps s → Matches (b'?' ∷ ps) (c ∷ s)
  any_some : (c : ℕ) (t : Text) {ps s : Text} → Matches ps s → Matches (b'*' ∷ ps) (c ∷ (t ++ s))

-- No bracket, and no backslash at the end.
pub data IsSimple : Text → Type 0 where
  empty : IsSimple []
  one : (p : ℕ) {ps : Text} → p ≢ b'[' → p ≢ b'\\' → IsSimple ps → IsSimple (p ∷ ps)
  backslash : (p : ℕ) {ps : Text} → IsSimple ps → IsSimple (b'\\' ∷ p ∷ ps)

-- What stands in front tells how a pattern matches.
Matches-star :
    {p c : ℕ} {ps s : Text} → Matches (p ∷ ps) (c ∷ s) → p ≡ b'*' → SomeEnd (Matches ps) s
Matches-star (ordinary c h m) same = absurd (h.0 same)
Matches-star (escaped c m) same = absurd (omega (arith, same))
Matches-star (any_one c m) same = absurd (omega (arith, same))
Matches-star (any_some c t {s = rest} m) same = SomeEnd-append t rest m

Matches-any : {p c : ℕ} {ps s : Text} → Matches (p ∷ ps) (c ∷ s) → p ≡ b'?' → Matches ps s
Matches-any (ordinary c h m) same = absurd (h.1 same)
Matches-any (escaped c m) same = absurd (omega (arith, same))
Matches-any (any_one c m) same = m
Matches-any (any_some c t m) same = absurd (omega (arith, same))

Matches-escaped :
    {p q c : ℕ} {ps s : Text} → Matches (p ∷ q ∷ ps) (c ∷ s) → p ≡ b'\\' → (q ≡ c) × Matches ps s
Matches-escaped (ordinary c h m) same = absurd (h.3 same)
Matches-escaped (escaped c m) same = (refl, m)
Matches-escaped (any_one c m) same = absurd (omega (arith, same))
Matches-escaped (any_some c t m) same = absurd (omega (arith, same))

Matches-ordinary :
    {p c : ℕ} {ps s : Text} → Matches (p ∷ ps) (c ∷ s) → IsOrdinary p → (p ≡ c) × Matches ps s
Matches-ordinary (ordinary c h m) o = (refl, m)
Matches-ordinary (escaped c m) o = absurd (o.3 refl)
Matches-ordinary (any_one c m) o = absurd (o.1 refl)
Matches-ordinary (any_some c t m) o = absurd (o.0 refl)

Matches-empty : {p : ℕ} {ps s : Text} → Matches (p ∷ ps) s → s ≢ []
Matches-empty (ordinary c h m) = λ e. cc e
Matches-empty (escaped c m) = λ e. cc e
Matches-empty (any_one c m) = λ e. cc e
Matches-empty (any_some c t m) = λ e. cc e

Matches-nil : {s : Text} → Matches [] s → s ≡ []
Matches-nil ends = refl

-- The match at one character of the pattern.
module _ (behind : Text) (p c : ℕ) (ps s : Text) where
  wildcard_match-star :
      p ≡ b'*' → wildcard_match behind (p ∷ ps) (c ∷ s) ≡ star_loop (wildcard_match behind ps) s
  unfolding wildcard_match
  wildcard_match-star h = ground (arith, h)

  wildcard_match-any :
      p ≡ b'?' → wildcard_match behind (p ∷ ps) (c ∷ s) ≡ wildcard_match behind ps s
  unfolding wildcard_match
  wildcard_match-any h = ground (arith, h)

  wildcard_match-same :
      IsOrdinary p → p ≡ c → wildcard_match behind (p ∷ ps) (c ∷ s) ≡ wildcard_match behind ps s
  unfolding wildcard_match
  wildcard_match-same h same = ground (arith, h, same)

  wildcard_match-other : IsOrdinary p → p ≢ c → wildcard_match behind (p ∷ ps) (c ∷ s) ≡ some false
  unfolding wildcard_match
  wildcard_match-other h other = ground (arith, h, other)

module _ (behind : Text) (p c : ℕ) (ps s : Text) where
  wildcard_match-escaped :
      p ≡ c → wildcard_match behind (b'\\' ∷ p ∷ ps) (c ∷ s) ≡ wildcard_match behind ps s
  unfolding wildcard_match
  wildcard_match-escaped same = ground (arith, same)

  wildcard_match-other_escaped : p ≢ c → wildcard_match behind (b'\\' ∷ p ∷ ps) (c ∷ s) ≡ some false
  unfolding wildcard_match
  wildcard_match-other_escaped other = ground (arith, other)

wildcard_match-empty :
    (behind : Text) (p : ℕ) (ps : Text) → wildcard_match behind (p ∷ ps) [] ≡ some false
unfolding wildcard_match
wildcard_match-empty behind p ps = refl

-- An end of a text that a pattern stands for has an end that the rest of the pattern stands for.
Matches-behind :
    {p c : ℕ} {ps s : Text} → Matches (p ∷ ps) (c ∷ s) → p ≢ b'\\' → SomeEnd (Matches ps) s
Matches-behind (ordinary c h m) other = at_once m
Matches-behind (escaped c m) other = absurd (other refl)
Matches-behind (any_one c m) other = at_once m
Matches-behind (any_some c t {s = rest} m) other = SomeEnd-append t rest m

Matches-tail :
    {p : ℕ} {ps : Text} (s : Text)
    → p ≢ b'\\'
    → SomeEnd (Matches (p ∷ ps)) s
    → SomeEnd (Matches ps) (tail s)
Matches-tail s other = SomeEnd-tail (λ c t m. Matches-behind m other) (λ m. Matches-empty m refl) s

single-Decides :
    (behind : Text) (p : ℕ) (ps : Text)
    → p ≢ b'['
    → p ≢ b'\\'
    → Decides (wildcard_match behind ps) (Matches ps)
    → (c : ℕ) (s : Text)
    → Verdict (Matches (p ∷ ps)) (c ∷ s) (wildcard_match behind (p ∷ ps) (c ∷ s))
single-Decides behind p ps h h' ih c s = elim (Bool-cases (nat_eq p b'*')) [
  | inl is_star ↦
      let star : p ≡ b'*' = (nat_eq_iff p b'*').0 is_star in
      moved {P = SomeEnd (Matches ps)} (wildcard_match-star behind p c ps s star)
        (star_loop-Decides (wildcard_match behind ps) (Matches ps) ih s)
        (λ found.
          let (t, rest, same, m) = append-SomeEnd found in
          subst (λ (q : ℕ). Matches (q ∷ ps) (c ∷ s)) (sym star)
            (subst (λ (l : Text). Matches (b'*' ∷ ps) (c ∷ l)) (sym same) (any_some c t m)))
        (λ m. Matches-star m star) (λ found. at_once (Matches-tail (c ∷ s) h' found))
  | inr no_star ↦ elim (Bool-cases (nat_eq p b'?')) [
    | inl is_any ↦
        let mark : p ≡ b'?' = (nat_eq_iff p b'?').0 is_any in
        moved (wildcard_match-any behind p c ps s mark) (ih s)
          (λ m. subst (λ (q : ℕ). Matches (q ∷ ps) (c ∷ s)) (sym mark) (any_one c m))
          (λ m. Matches-any m mark) (Matches-tail (c ∷ s) h')
    | inr no_any ↦
        let plain : IsOrdinary p =
          (λ e. ground (arith, e, no_star), λ e. ground (arith, e, no_any), h, h') in
        elim (Bool-cases (nat_eq p c)) [
          | inl is_same ↦
              let same : p ≡ c = (nat_eq_iff p c).0 is_same in
              moved (wildcard_match-same behind p c ps s plain same) (ih s)
                (λ m. subst (λ (d : ℕ). Matches (p ∷ ps) (d ∷ s)) same (ordinary p plain m))
                (λ m. (Matches-ordinary m plain).1) (Matches-tail (c ∷ s) h')
          | inr differs ↦
              says_no (wildcard_match-other behind p c ps s plain (λ e. ground (arith, e, differs)))
                (λ m. ground (arith, (Matches-ordinary m plain).0, differs))
        ]
  ]
]

backslash-Decides :
    (behind : Text) (p : ℕ) (ps : Text)
    → Decides (wildcard_match behind ps) (Matches ps)
    → (c : ℕ) (s : Text)
    → Verdict (Matches (b'\\' ∷ p ∷ ps)) (c ∷ s) (wildcard_match behind (b'\\' ∷ p ∷ ps) (c ∷ s))
backslash-Decides behind p ps ih c s = elim (Bool-cases (nat_eq p c)) [
  | inl is_same ↦
      let same : p ≡ c = (nat_eq_iff p c).0 is_same in
      moved (wildcard_match-escaped behind p c ps s same) (ih s)
        (λ m. subst (λ (d : ℕ). Matches (b'\\' ∷ p ∷ ps) (d ∷ s)) same (escaped p m))
        (λ m. (Matches-escaped m refl).1)
        (SomeEnd-tail (λ d t m. at_once (Matches-escaped m refl).1) (λ m. Matches-empty m refl)
          (c ∷ s))
  | inr differs ↦
      says_no (wildcard_match-other_escaped behind p c ps s (λ e. ground (arith, e, differs)))
        (λ m. ground (arith, (Matches-escaped m refl).0, differs))
]

empty-Decides : (behind : Text) → Decides (wildcard_match behind []) (Matches [])
unfolding wildcard_match
empty-Decides behind [] = says_yes refl ends
empty-Decides behind (c ∷ s) = says_no refl (λ m. cc (Matches-nil m))

simple-Decides :
    (behind : Text) {p : Text} → IsSimple p → Decides (wildcard_match behind p) (Matches p)
simple-Decides behind empty [] = empty-Decides behind []
simple-Decides behind empty (c ∷ s) = empty-Decides behind (c ∷ s)
simple-Decides behind (one p {ps} h h' d) [] =
    says_no (wildcard_match-empty behind p ps) (λ m. Matches-empty m refl)
simple-Decides behind (one p {ps} h h' d) (c ∷ s) =
    single-Decides behind p ps h h' (simple-Decides behind d) c s
simple-Decides behind (backslash p {ps} d) [] =
    says_no (wildcard_match-empty behind b'\\' (p ∷ ps)) (λ m. Matches-empty m refl)
simple-Decides behind (backslash p {ps} d) (c ∷ s) =
    backslash-Decides behind p ps (simple-Decides behind d) c s

-- A pattern without a star gets an answer.
simple-answers :
    (behind : Text) {p : Text} (s : Text)
    → IsSimple p
    → contains b'*' p ≡ false
    → (b : Bool) × (wildcard_match behind p s ≡ some b)
unfolding wildcard_match
simple-answers behind [] empty h = (true, refl)
simple-answers behind (c ∷ s) empty h = (false, refl)
simple-answers behind [] (one p {ps} no_bracket no_backslash d) h = (false, refl)
simple-answers behind (c ∷ s) (one p {ps} no_bracket no_backslash d) h =
    let (b, same) = simple-answers behind s d (ground (arith, h)) in
    let no_star : p ≢ b'*' = λ e. ground (arith, e, h) in
    elim (Bool-cases (nat_eq p b'?')) [
      | inl mark ↦ (b, wildcard_match-any behind p c ps s ((nat_eq_iff p b'?').0 mark) ∙ same)
      | inr no_mark ↦
          let plain : IsOrdinary p =
            (no_star, λ e. ground (arith, e, no_mark), no_bracket, no_backslash) in
          elim (Bool-cases (nat_eq p c)) [
            | inl alike ↦
                (b, wildcard_match-same behind p c ps s plain ((nat_eq_iff p c).0 alike) ∙ same)
            | inr differs ↦ (
              false,
              wildcard_match-other behind p c ps s plain (λ e. ground (arith, e, differs)),
            )
          ]
    ]
simple-answers behind [] (backslash p {ps} d) h = (false, refl)
simple-answers behind (c ∷ s) (backslash p {ps} d) h =
    let (b, same) = simple-answers behind s d (ground (arith, h)) in
    elim (Bool-cases (nat_eq p c)) [
      | inl alike ↦ (b, wildcard_match-escaped behind p c ps s ((nat_eq_iff p c).0 alike) ∙ same)
      | inr differs ↦
          (false, wildcard_match-other_escaped behind p c ps s (λ e. ground (arith, e, differs)))
    ]

yes_iff : {P : Text → Type 0} {s : Text} {o : Option Bool} → Verdict P s o → (o ≡ some true) ↔ P s
yes_iff (says_yes same holds) = (λ _. holds, λ _. same)
yes_iff (says_no same refuted) = (λ e. cc (same, e), λ h. absurd (refuted h))
yes_iff (fails same refuted) = (λ e. cc (same, e), λ h. absurd (refuted (at_once h)))

-- On a pattern without brackets that does not end in a backslash, `wildcardMatch` answers yes exactly
-- on the names that the pattern stands for. On a pattern without a star it always answers; with one,
-- it may fail an assertion in place of the answer no.
pub wildcard_match-Matches :
    (behind pattern name : Text)
    → IsSimple pattern
    → ((wildcard_match behind pattern name ≡ some true) ↔ Matches pattern name)
      × (contains b'*' pattern ≡ false → (b : Bool) × (wildcard_match behind pattern name ≡ some b))
wildcard_match-Matches behind pattern name h =
    (yes_iff (simple-Decides behind h name), simple-answers behind name h)
