-- ===== src/Prelude/JsonValues.antt =====
-- The values of `json.loads`, an object being its pairs in order. A number that is no int keeps its
-- spelling.
use Prim.Native.String.{String}
use mathlib.Core.Bool.{Bool}
use mathlib.Core.List.{List, [], ◌∷◌}
use causpan.Prelude.Int.{ℤ}
use causpan.Prelude.Tests.{string_eq}

mutual
  pub data Json : Type 0 where
    null : Json
    boolean : Bool → Json
    integer : ℤ → Json
    real : String → Json
    text : String → Json
    array : Items → Json
    object : Fields → Json

  pub data Items : Type 0 where
    nil : Items
    cons : Json → Items → Items

  pub data Fields : Type 0 where
    end : Fields
    field : String → Json → Fields → Fields

abbrev pub items : Items → List Json
items Items.nil = []
items (Items.cons x xs) = x ∷ items xs

abbrev pub item_list : List Json → Items
item_list [] = Items.nil
item_list (x ∷ xs) = Items.cons x (item_list xs)

abbrev pub fields : Fields → List (String × Json)
fields Fields.end = []
fields (Fields.field key value rest) = (key, value) ∷ fields rest
