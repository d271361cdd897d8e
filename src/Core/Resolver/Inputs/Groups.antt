-- ===== src/Core/Resolver/Inputs/Groups.antt =====
-- `getFile` of lib/Core/Resolver.cpp: the walk over `--start-group` … `--end-group`.
use lld_or1k.Base.{
  ℕ, zero, suc, ◌+◌, ◌-◌, ◌≤◌, ◌<◌, ◌≡◌, refl, ◌⊎◌, inl, inr, Bool, true, false, nat_eq, nat_eq_iff,
  address_eq, Option, none, some, List, [], ◌∷◌, arith, length, get_elem?, Bool-cases, Option-cases,
}
use lld_or1k.Base.Table.{Table, find}
use lld_or1k.Core.File.{Node, file_node, group_end, FileAddress}
use lld_or1k.Core.Outcome.{ok}
use lld_or1k.Core.Resolver.Inputs.{get_file, undefines_added, has_new_undefines}

-- A group that is not empty begins with a file.
abbrev pub AreGroups : List Node → Type 0
AreGroups nodes =
    (i size : ℕ)
    → get_elem? nodes i ≡ some (group_end (suc size))
    → (f : FileAddress) × (get_elem? nodes (i - suc size) ≡ some (file_node f))

module _ (nodes : List Node) (added : Table FileAddress Bool) where
  -- One of the files at `begin`, …, `index - 1` has added undefined symbols.
  abbrev pub HasGrown : ℕ → ℕ → Type 0
  HasGrown begin index =
      (i : ℕ) × (f : FileAddress) × (begin ≤ i)
      × (i < index)
      × (get_elem? nodes i ≡ some (file_node f))
      × (find f added ≡ some true)

  -- The file that comes next at an index, and the index behind its node: the file that stands there;
  -- at the end of a group that has grown, the group's first file; at the end of any other group,
  -- what comes next behind it.
  pub data IsNext : ℕ → Option FileAddress × ℕ → Type 0 where
    at_end : (index : ℕ) → length nodes ≤ index → IsNext index (none, index)
    a_file :
        (index : ℕ) (f : FileAddress)
        → get_elem? nodes index ≡ some (file_node f)
        → IsNext index (some f, index + 1)
    again :
        (index size : ℕ) (f : FileAddress)
        → get_elem? nodes index ≡ some (group_end size)
        → HasGrown (index - size) (index - size + size)
        → get_elem? nodes (index - size) ≡ some (file_node f)
        → IsNext index (some f, index - size + 1)
    behind :
        (index size : ℕ) {answer : Option FileAddress × ℕ}
        → get_elem? nodes index ≡ some (group_end size)
        → ¬ HasGrown (index - size) (index - size + size)
        → IsNext (index + 1) answer
        → IsNext index answer

  HasGrown-to : (begin index end : ℕ) → index ≤ end → HasGrown begin index → HasGrown begin end
  HasGrown-to begin index end short (i, f, le, lt, here, new) = (i, f, le, omega arith, here, new)

  HasGrown-onward :
      (begin count : ℕ)
      → HasGrown (begin + 1) (begin + 1 + count)
      → HasGrown begin (begin + suc count)
  HasGrown-onward begin count (i, f, le, lt, here, new) =
      (i, f, omega arith, omega arith, here, new)

  -- The first file of the span, or the rest of it.
  HasGrown-split :
      (begin index : ℕ)
      → HasGrown begin index
      → ((f : FileAddress) × (get_elem? nodes begin ≡ some (file_node f))
          × (find f added ≡ some true))
        ⊎ HasGrown (begin + 1) index
  HasGrown-split begin index (i, f, le, lt, here, new) = elim (Bool-cases (nat_eq begin i)) [
    | inl same ↦ inl (f, rw ((nat_eq_iff begin i).0 same) here, new)
    | inr other ↦ inr (i, f, ground (arith, le, other), lt, here, new)
  ]

  undefines_added-HasGrown :
      (begin count : ℕ)
      → undefines_added nodes added begin count ≡ true
      → HasGrown begin (begin + count)
  unfolding undefines_added
  undefines_added-HasGrown begin zero h = cc h
  undefines_added-HasGrown begin (suc count) h =
      let onward = λ (rest : undefines_added nodes added (begin + 1) count ≡ true).
        HasGrown-onward begin count (undefines_added-HasGrown (begin + 1) count rest) in
      elim (Option-cases (get_elem? nodes begin)) [
        | inl e ↦ onward (rw (e, undefines_added) at h)
        | inr (group_end size, e) ↦ onward (rw (e, undefines_added) at h)
        | inr (file_node f, e) ↦ elim (Bool-cases (has_new_undefines f added)) [
          | inl new ↦ (begin, f, omega arith, omega arith, e, ground (arith, new))
          | inr old ↦ onward (ground (arith, rw (e, undefines_added) at h, old))
        ]
      ]

  not_added-HasGrown :
      (begin count : ℕ)
      → undefines_added nodes added begin count ≡ false
      → ¬ HasGrown begin (begin + count)
  unfolding undefines_added
  not_added-HasGrown begin zero h (i, f, le, lt, here, new) = absurd (omega arith)
  not_added-HasGrown begin (suc count) h grown =
      let onward =
        λ (rest : undefines_added nodes added (begin + 1) count ≡ false)
            (left : HasGrown (begin + 1) (begin + suc count)).
          not_added-HasGrown (begin + 1) count rest
            (HasGrown-to (begin + 1) (begin + suc count) (begin + 1 + count) (omega arith) left) in
      elim (HasGrown-split begin (begin + suc count) grown) [
        | inl (f, here, new) ↦ ground (arith, rw (here, undefines_added) at h, new)
        | inr left ↦ elim (Option-cases (get_elem? nodes begin)) [
          | inl e ↦ onward (rw (e, undefines_added) at h) left
          | inr (group_end size, e) ↦ onward (rw (e, undefines_added) at h) left
          | inr (file_node f, e) ↦
              onward
                (ground
                  (arith, rw (e, undefines_added) at h, Bool-cases (has_new_undefines f added)))
                left
        ]
      ]

  get_elem?-none : (l : List Node) (i : ℕ) → get_elem? l i ≡ none → length l ≤ i
  get_elem?-none [] i h = omega arith
  get_elem?-none (x ∷ l) zero h = cc
  get_elem?-none (x ∷ l) (suc i) h = omega (arith, get_elem?-none l i h)

  get_elem?-some : (l : List Node) (i : ℕ) (n : Node) → get_elem? l i ≡ some n → i < length l
  get_elem?-some [] i n h = cc
  get_elem?-some (x ∷ l) zero n h = omega arith
  get_elem?-some (x ∷ l) (suc i) n h = omega (arith, get_elem?-some l i n h)

  Finds : ℕ → ℕ → Type 0
  Finds fuel index =
      (answer : Option FileAddress × ℕ) × (get_file fuel nodes added index ≡ ok answer)
      × IsNext index answer

  at_file :
      (fuel index : ℕ) (f : FileAddress)
      → get_elem? nodes index ≡ some (file_node f)
      → Finds (suc fuel) index
  unfolding get_file Finds
  at_file fuel index f e = ((some f, index + 1), rw (e, get_file), a_file index f e)

  group_step :
      (fuel index size : ℕ)
      → get_elem? nodes index ≡ some (group_end size)
      → AreGroups nodes
      → index < length nodes
      → length nodes < fuel + index
      → Finds fuel (index + 1)
      → Finds (suc fuel) index
  unfolding get_file Finds undefines_added
  group_step fuel index zero e groups lt enough (answer, run, next) = (
    answer,
    rw (e, get_file) run,
    behind index zero e (not_added-HasGrown (index - zero) zero refl) next,
  )
  group_step zero index (suc size) e groups lt enough onward = absurd (omega arith)
  group_step (suc fuel) index (suc size) e groups lt enough (answer, run, next) =
      elim (Bool-cases (undefines_added nodes added (index - suc size) (suc size))) [
        | inl grown ↦
            let (f, first) = groups index size e in
            (
              (some f, index - suc size + 1),
              rw (e, get_file) (rw grown (rw (first, get_file))),
              again index (suc size) f e
                  (undefines_added-HasGrown (index - suc size) (suc size) grown) first,
            )
        | inr settled ↦ (
          answer,
          rw (e, get_file) (rw settled run),
          behind index (suc size) e (not_added-HasGrown (index - suc size) (suc size) settled) next,
        )
      ]

  -- For groups that begin with a file, `getFile` answers with the file that comes next at the index:
  -- it goes back to the first file of a group exactly if one of the group's files has added undefined
  -- symbols. A round for each node that is left, and two more, are enough.
  pub get_file-IsNext :
      (fuel index : ℕ)
      → AreGroups nodes
      → index ≤ length nodes
      → length nodes + 1 < fuel + index
      → (answer : Option FileAddress × ℕ) × (get_file fuel nodes added index ≡ ok answer)
        × IsNext index answer
  unfolding get_file Finds
  get_file-IsNext zero index groups le h = absurd (omega arith)
  get_file-IsNext (suc fuel) index groups le h = elim (Option-cases (get_elem? nodes index)) [
    | inl e ↦ ((none, index), rw (e, get_file), at_end index (get_elem?-none nodes index e))
    | inr (file_node f, e) ↦ at_file fuel index f e
    | inr (group_end size, e) ↦
        let lt = get_elem?-some nodes index (group_end size) e in
        group_step fuel index size e groups lt (omega arith)
          (get_file-IsNext fuel (index + 1) groups (omega arith) (omega arith))
  ]
