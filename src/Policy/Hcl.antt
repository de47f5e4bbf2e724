-- ===== src/Policy/Hcl.antt =====
-- The parser github.com/hashicorp/hcl, which internal/policy calls and does not contain: its
-- functions are a parameter of the model, over the parts of its syntax tree that the package reads.
use wyrwood.Base.{ℕ, Bool, Option, List}
use wyrwood.Base.Text.{Text}

pub record Token : Type 0 where
  pub is_string : Bool
  pub text : Text
  -- Token.Value() where it is a string.
  pub value : Option Text

-- A top-level item: its keys, the tokens of the keys and literals inside its value in the order
-- of ast.Walk, its offset, and the offset of the closing brace where its value is an object.
pub record Item : Type 0 where
  pub keys : List Token
  pub inner : List Token
  pub pos : ℕ
  pub rbrace : Option ℕ

-- A path stanza as hcl.Decode reads it.
pub record Rule : Type 0 where
  pub name : Text
  pub capabilities : List Text
  pub policy : Text

pub record Hcl : Type 0 where
  -- The items, or none where the text does not parse to an object list.
  pub parse : Text → Option (List Item)
  pub unquote : Text → Option Text
  -- The stanzas, or none on an error.
  pub decode_rules : Text → Option (List Rule)
  -- printer.Fprint of the kept items, or none on an error.
  pub print : List Item → Option Text
