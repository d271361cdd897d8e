-- ===== src/Script/Wildcard.antt =====
-- `wildcardMatch` of lib/ReaderWriter/LinkerScript.cpp. `none` is a run that fails the assertion
-- of `drop_front` or that the language leaves undefined; `behind` is what stands behind the name in
-- memory, up to the first NUL.
pub mod Verdict
pub mod Meaning
use lld_or1k.Base.{ℕ, Bool, true, false, ◌||◌, Option, none, some, List, [], ◌∷◌, ◌++◌, nat_eq}
use lld_or1k.Base.Text.{Text, starts_with}

-- `chars.find(s)`, as a test.
unfoldable pub occurs : Text → Text → Bool
unfolding starts_with
occurs s [] = starts_with s []
occurs s (c ∷ chars) = starts_with s (c ∷ chars) || occurs s chars

-- The pattern up to the next `]`.
unfoldable pub up_to_bracket : Text → Text
up_to_bracket [] = []
up_to_bracket (p ∷ ps) = elim (nat_eq p b']') [ true ↦ [] | false ↦ p ∷ up_to_bracket ps ]

-- The loop at `*`, for the test of the rest of the pattern. What stands behind the star goes on
-- where the test succeeds, with the same outcome. When it fails on the empty rest, the loop has not
-- come to the end of the name yet, and its next turn drops one character more than there are.
unfoldable pub star_loop : (Text → Option Bool) → Text → Option Bool
star_loop rest_matches [] = elim (rest_matches []) [ some true ↦ some true | _ ↦ none ]
star_loop rest_matches (c ∷ s) = elim (rest_matches (c ∷ s)) [
  | none ↦ none
  | some true ↦ some true
  | some false ↦ star_loop rest_matches s
]

unfoldable mutual
  unfolding occurs up_to_bracket star_loop

  pub wildcard_match : Text → Text → Text → Option Bool
  wildcard_match behind [] [] = some true
  wildcard_match behind [] (c ∷ s) = some false
  wildcard_match behind (p ∷ ps) [] = some false
  wildcard_match behind (p ∷ ps) (c ∷ s) = elim (nat_eq p b'*') [
    | true ↦ star_loop (λ rest. wildcard_match behind ps rest) s
    | false ↦ elim (nat_eq p b'?') [
      | true ↦ wildcard_match behind ps s
      | false ↦ elim (nat_eq p b'[') [
        | true ↦ elim (occurs (c ∷ (s ++ behind)) (p ∷ up_to_bracket ps)) [
          | true ↦ after_bracket behind ps s
          | false ↦ some false
        ]
        | false ↦ elim (nat_eq p b'\\') [
          | true ↦ after_backslash behind ps c s
          | false ↦ elim (nat_eq p c) [ true ↦ wildcard_match behind ps s | false ↦ some false ]
        ]
      ]
    ]
  ]

  -- The match goes on behind the next `]`.
  pub after_bracket : Text → Text → Text → Option Bool
  after_bracket behind [] s = none
  after_bracket behind (p ∷ ps) s = elim (nat_eq p b']') [
    | true ↦ wildcard_match behind ps s
    | false ↦ after_bracket behind ps s
  ]

  -- The next character of the pattern stands for itself.
  pub after_backslash : Text → Text → ℕ → Text → Option Bool
  after_backslash behind [] c s = none
  after_backslash behind (p ∷ ps) c s = elim (nat_eq p c) [
    | true ↦ wildcard_match behind ps s
    | false ↦ some false
  ]
