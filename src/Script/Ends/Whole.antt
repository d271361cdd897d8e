-- ===== src/Script/Ends/Whole.antt =====
-- Output sections, SECTIONS and the whole parser of lib/ReaderWriter/LinkerScript.cpp end on every
-- input.
use lld_or1k.Base.Text.{Text}
use lld_or1k.Script.Token.{Token}
use lld_or1k.Script.Expression.{Expression}
use lld_or1k.Script.Commands.TopLevel.{Script, complete, parse_error, unfinished}
use lld_or1k.Script.Ends.Outputs.{Ends}

-- A parser that came to an end.
abbrev pub IsFinished : Script → Type 0
IsFinished (complete cs) = Unit
IsFinished (parse_error cs) = Unit
IsFinished unfinished = ⊥
