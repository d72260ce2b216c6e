-- ===== src/Js/Json.antt =====
-- The values of JSON: what `JSON.parse` returns, and what `JSON.stringify` is given.
use desk_ssh.Base.{Bool}
use desk_ssh.Js.Text.{Text}

mutual
  -- The number is its text; `Number` is a parameter of what reads it.
  pub data Json : Type 0 where
    null : Json
    boolean : Bool → Json
    number : Text → Json
    string : Text → Json
    array : Items → Json
    object : Fields → Json

  pub data Items : Type 0 where
    no_items : Items
    item : Json → Items → Items

  pub data Fields : Type 0 where
    no_fields : Fields
    field : Text → Json → Fields → Fields
