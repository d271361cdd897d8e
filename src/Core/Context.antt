-- ===== src/Core/Context.antt =====
-- What the core asks of the linking context (include/lld/Core/LinkingContext.h): its options, and
-- the hook by which a target may change which of two atoms is kept.
use lld_or1k.Base.{◌≡◌, Bool, List, String}
use lld_or1k.Core.Atom.{Address}

-- `notify_coalesce existing new use_new` is `useNew` after `notifySymbolTableCoalesce`.
pub record LinkingContext : Type 0 where
  pub allow_duplicates : Bool
  pub notify_coalesce : Address → Address → Bool → Bool
  pub dead_strip : Bool
  pub globals_are_dead_strip_roots : Bool
  pub dead_strip_roots : List String
  pub allow_shlib_undefines : Bool
  pub allow_remaining_undefines : Bool
  pub search_archives_to_override : Bool
  pub search_shared_libraries_to_override : Bool

-- The hook leaves the choice alone, as the one in LinkingContext.h does.
abbrev pub NotifyKeeps : LinkingContext → Type 0
NotifyKeeps ctx = (e n : Address) (b : Bool) → ctx.notify_coalesce e n b ≡ b
