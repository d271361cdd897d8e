-- ===== src/Script/Lexer/Remainder.antt =====
-- What the lexer leaves of a text: its parts that cannot fail, and the searches in the buffer.
use lld_or1k.Base.{
  ℕ, zero, suc, ◌≤◌, ◌≡◌, ◌⊎◌, refl, sym, Bool, true, false, ◌&&◌, [], ◌∷◌, nat_eq, length, arith,
  Bool-cases, inl, inr, subst,
}
use lld_or1k.Base.Text.{Text, drop, drop_while}
use lld_or1k.Script.Spelling.{
  can_start_name, can_continue_name, can_start_number, can_continue_number, is_space,
}
use lld_or1k.Script.Lexer.{
  skip_whitespace, skip_opened, skip_comment, first, lex_number, lex_name, lex_default,
  stands_alone,
}

-- Nothing stands behind the last newline.
unfoldable pub ends_line : Text → Bool
ends_line [] = true
ends_line (c ∷ []) = nat_eq c 10
ends_line (c ∷ d ∷ s) = ends_line (d ∷ s)

-- What is left of a text.
pub record Behind (r s : Text) : Type 0 where
  pub shorter : length r ≤ length s
  pub closed : ends_line s ≡ true → ends_line r ≡ true

pub Behind-refl : (s : Text) → Behind s s
Behind-refl s = record { shorter = omega arith; closed = λ h. h }

pub Behind-trans : {r s t : Text} → Behind r s → Behind s t → Behind r t
Behind-trans h k = record {
  shorter = omega (arith, h.shorter, k.shorter);
  closed = λ e. h.closed (k.closed e);
}

pub Behind-open : {r s : Text} → Behind r s → ends_line r ≡ false → ends_line s ≡ false
Behind-open {s} h open_ = elim (Bool-cases (ends_line s)) [
  | inl closed ↦ absurd (cc (h.closed closed, open_))
  | inr same ↦ same
]

Behind-same : {r r' s : Text} → r' ≡ r → Behind r s → Behind r' s
Behind-same {s} same h = subst (λ left. Behind left s) (sym same) h

pub tail-Behind : (c : ℕ) (s : Text) → Behind s (c ∷ s)
unfolding ends_line
tail-Behind c [] = record { shorter = omega arith; closed = λ _. refl }
tail-Behind c (d ∷ s) = record { shorter = omega arith; closed = λ h. h }

pub later : {r : Text} (c : ℕ) {s : Text} → Behind r s → Behind r (c ∷ s)
later c {s} h = Behind-trans h (tail-Behind c s)

pub drop-Behind : (n : ℕ) (s : Text) → Behind (drop n s) s
unfolding drop
drop-Behind zero s = Behind-refl s
drop-Behind (suc n) [] = Behind-refl []
drop-Behind (suc n) (c ∷ s) = later c (drop-Behind n s)

pub drop_while-Behind : (p : ℕ → Bool) (s : Text) → Behind (drop_while p s) s
unfolding drop_while
drop_while-Behind p [] = Behind-refl []
drop_while-Behind p (c ∷ s) = elim (Bool-cases (p c)) [
  | inl goes_on ↦ rw (goes_on, drop_while) (later c (drop_while-Behind p s))
  | inr stops ↦ rw (stops, drop_while) (Behind-refl (c ∷ s))
]

mutual
  unfolding skip_whitespace

  pub skip_whitespace-Behind : (s : Text) → Behind (skip_whitespace s) s
  skip_whitespace-Behind [] = Behind-refl []
  skip_whitespace-Behind (c ∷ []) = elim (Bool-cases (is_space c)) [
    | inl space ↦ Behind-same (ground (arith, space)) (tail-Behind c [])
    | inr other ↦ Behind-same (ground (arith, other)) (Behind-refl (c ∷ []))
  ]
  skip_whitespace-Behind (c ∷ d ∷ s) = elim (Bool-cases (is_space c)) [
    | inl space ↦ Behind-same (ground (arith, space)) (later c (skip_whitespace-Behind (d ∷ s)))
    | inr other ↦ elim (Bool-cases (nat_eq c b'/' && nat_eq d b'*')) [
      | inl comment ↦
          Behind-same (ground (arith, other, comment)) (later c (later d (skip_opened-Behind s)))
      | inr stops ↦ Behind-same (ground (arith, other, stops)) (Behind-refl (c ∷ d ∷ s))
    ]
  ]

  skip_opened-Behind : (s : Text) → Behind (skip_opened s) s
  skip_opened-Behind [] = Behind-refl []
  skip_opened-Behind (c ∷ s) = later c (skip_comment-Behind c s)

  skip_comment-Behind : (last : ℕ) (s : Text) → Behind (skip_comment last s) s
  skip_comment-Behind last [] = Behind-refl []
  skip_comment-Behind last (c ∷ s) = elim (Bool-cases (nat_eq c b'/' && nat_eq last b'*')) [
    | inl over ↦ Behind-same (ground (arith, over)) (later c (skip_whitespace-Behind s))
    | inr inside ↦ Behind-same (ground (arith, inside)) (later c (skip_comment-Behind c s))
  ]

pub List-cases : (s : Text) → (s ≡ []) ⊎ ((behind : ℕ × Text) × (s ≡ behind.0 ∷ behind.1))
List-cases [] = inl refl
List-cases (d ∷ rest) = inr ((d, rest), refl)

-- What is left where a search stops.
stopped-Behind :
    (p : ℕ → Bool) (s : Text) (d : ℕ) (rest : Text)
    → drop_while p s ≡ d ∷ rest
    → Behind (d ∷ rest) s
stopped-Behind p s d rest same = subst (λ left. Behind left s) same (drop_while-Behind p s)

lex_number-Behind : (c : ℕ) (s : Text) → Behind (lex_number c s).1 s
unfolding lex_number
lex_number-Behind c s = elim (List-cases (drop_while can_continue_number s)) [
  | inl ended ↦ Behind-same (ground (arith, ended)) (Behind-refl s)
  | inr ((d, rest), same) ↦
      Behind-same (ground (arith, same)) (stopped-Behind can_continue_number s d rest same)
]

lex_name-Behind : (c : ℕ) (s : Text) → Behind (lex_name c s).1 s
unfolding lex_name
lex_name-Behind c s = elim (Bool-cases (can_start_name c)) [
  | inl starts ↦ elim (List-cases (drop_while can_continue_name s)) [
    | inl ended ↦ Behind-same (ground (arith, starts, ended)) (Behind-refl s)
    | inr ((d, rest), same) ↦
        Behind-same (ground (arith, starts, same)) (stopped-Behind can_continue_name s d rest same)
  ]
  | inr bare ↦ Behind-same (ground (arith, bare)) (Behind-refl s)
]

pub lex_default-Behind : (c : ℕ) (s : Text) → Behind (lex_default c s).1 s
unfolding lex_default
lex_default-Behind c s = elim (Bool-cases (can_start_number c)) [
  | inl numeral ↦ Behind-same (ground (arith, numeral)) (lex_number-Behind c s)
  | inr not_numeral ↦ elim (Bool-cases (nat_eq c b'/' && nat_eq (first s) b'=')) [
    | inl divides ↦ Behind-same (ground (arith, not_numeral, divides)) (drop-Behind 1 s)
    | inr not_divides ↦ elim (Bool-cases (nat_eq c b'/' && stands_alone s)) [
      | inl slashes ↦
          Behind-same (ground (arith, not_numeral, not_divides, slashes)) (Behind-refl s)
      | inr not_slashes ↦ elim (Bool-cases (nat_eq c b'*' && nat_eq (first s) b'=')) [
        | inl multiplies ↦
            Behind-same (ground (arith, not_numeral, not_divides, not_slashes, multiplies))
              (drop-Behind 1 s)
        | inr not_multiplies ↦ elim (Bool-cases (nat_eq c b'*' && stands_alone s)) [
          | inl stars ↦
              Behind-same
                (ground (arith, not_numeral, not_divides, not_slashes, not_multiplies, stars))
                (Behind-refl s)
          | inr not_stars ↦ elim (Bool-cases (nat_eq c b'?' && stands_alone s)) [
            | inl asks ↦
                Behind-same
                  (ground
                    (arith, not_numeral, not_divides, not_slashes, not_multiplies, not_stars, asks))
                  (Behind-refl s)
            | inr not_asks ↦
                Behind-same
                  (ground (
                    arith, not_numeral, not_divides, not_slashes, not_multiplies, not_stars,
                    not_asks,
                  ))
                  (lex_name-Behind c s)
          ]
        ]
      ]
    ]
  ]
]
