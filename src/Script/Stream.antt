-- ===== src/Script/Stream.antt =====
-- The token stream of `Parser` in include/lld/ReaderWriter/LinkerScript.h. The list begins with
-- `_tok`; the lexer repeats `eof`, as the empty list does here.
use lld_or1k.Base.{true, false, List, [], ◌∷◌}
use lld_or1k.Base.Text.{Text}
use lld_or1k.Script.Token.{Token, Kind, eof, is_kind}

abbrev pub token : Kind → Text → Token
token k r = record { range = r; kind = k }

-- `_tok._kind`, `_tok._range`, `consumeToken()` and `peek()._kind`.
abbrev pub kind_of : List Token → Kind
kind_of [] = eof
kind_of (t ∷ ts) = t.kind

abbrev pub range_of : List Token → Text
range_of [] = []
range_of (t ∷ ts) = t.range

abbrev pub consume : List Token → List Token
consume [] = []
consume (t ∷ ts) = ts

abbrev pub peek : List Token → Kind
peek ts = kind_of (consume ts)

-- What a parse function returns, with the tokens that are left: an object or the null pointer.
pub data Parsed {ℓ} (A : Type ℓ) : Type ℓ where
  found : A → List Token → Parsed A
  null : List Token → Parsed A
  out_of_fuel : Parsed A

infixl 1 ◌>>=◌
abbrev pub ◌>>=◌ {ℓ κ} :
    {A : Type ℓ} {B : Type κ} → Parsed A → (A → List Token → Parsed B) → Parsed B
◌>>=◌ (found a ts) k = k a ts
◌>>=◌ (null ts) k = null ts
◌>>=◌ out_of_fuel k = out_of_fuel

-- `expectAndConsume`, in front of what follows it.
abbrev pub expect {ℓ} : {A : Type ℓ} → Kind → List Token → (List Token → Parsed A) → Parsed A
expect k ts next = elim (is_kind (kind_of ts) k) [ true ↦ next (consume ts) | false ↦ null ts ]
